-- ===== src/Telemt.antt =====
-- pkg/telemt/secret.go: the keys of secrets.
pub mod Defs
pub mod Keys
pub use Defs.{bytes_size, IsByte}
unfoldable pub use Defs.{
  hex_digit, hex_encode, is_hex, all_hex, validate_secret_key, generate_secret, domain_to_hex,
  build_fake_tls_secret,
}
