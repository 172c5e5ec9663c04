-- ===== src/Config/Headers/Tables.antt =====
-- The headers of the sections from [censorship] on.
use popu_gate.Prelude.{
  ℕ, ◌≡◌, refl, pos, Bool, true, false, Str, codes, List, [], ◌∷◌, ◌++◌, if◌then◌else◌, Bool-cases,
  inl, inr,
}
use mathlib.Core.Path.{subst}
use popu_gate.UpstreamNames.Text.{has_byte}
use popu_gate.Format.Decimal.{format_int, format_bool}
use popu_gate.Format.Quote.{quote}
use popu_gate.Format.Clean.{
  Clean, has_byte-append, quote-Clean, format_int-Clean, format_bool-Clean,
}
use popu_gate.Config.Defs.{TelemtConfig, CensorshipConfig, AccessConfig, UpstreamConfig, RateLimit}
use popu_gate.Config.Lines.{
  entry, given, each, sorted_keys, value_at, label_lines, access_table, text_entry,
}
use popu_gate.Config.Render.{
  rate_limit_lines, exclusive_mask_lines, censorship_lines, render_censorship_section,
  render_access_section, upstream_lines, render_upstreams_section,
}
use popu_gate.Config.Headers.Entries.{
  Plain, spelled, blank_line, last_blank, int_line, flag_line, text_line, optional_int,
  optional_text, optional_array, pointed_line,
}
use popu_gate.Config.Headers.Rules.{
  Renders, is_header, no_lines, header_line, plain_line, entry_line, optional_line, then_lines,
  each_lines, label_loop, label_loop_none,
}

-- The label is a plain key.
abbrev labelled : (l : Str) → Clean l → is_header l ≡ false → Plain l
labelled l c h = record { clean = c; plain = h }

-- The header of a table of the access section: none where the map is empty.
abbrev pub table_header : {V : Type 0} → Str → List (Str × V) → List Str
table_header name [] = []
table_header name (p ∷ m) = name ∷ []

-- A loop over labels whose rounds write one entry writes no header.
label_entries :
    (value : Str → Str) (ls : List Str)
    → ((l : Str) → Clean (value l))
    → Renders (label_lines (λ l. entry l (value l) ∷ []) ls) []
label_entries value ls v =
    subst (Renders (label_lines (λ l. entry l (value l) ∷ []) ls)) (label_loop_none ls)
      (label_loop {g = λ _. []} (λ l c h. entry_line l (value l) c h (v l) no_lines) ls)

access_table-headers :
    {V : Type 0} (name : Str) (show : V → Str) (zero_value : V) (m : List (Str × V))
    → Clean name
    → is_header name ≡ true
    → ((v : V) → Clean (show v))
    → Renders (access_table name show zero_value m) (table_header name m)
access_table-headers name show zero_value [] c h v = no_lines
access_table-headers name show zero_value (p ∷ m) c h v = header_line name c h (
    then_lines
      (label_entries (λ l. show (value_at zero_value l (p ∷ m))) (sorted_keys (p ∷ m))
        (λ l. v (value_at zero_value l (p ∷ m))))
      last_blank)

abbrev pub rate_header : Str → Str
rate_header label = codes "[access.user_rate_limits." ++ (label ++ codes "]")

rate_limit_lines-headers :
    (m : List (Str × RateLimit)) (l : Str)
    → Clean l
    → Renders (rate_limit_lines m l) (rate_header l ∷ [])
unfolding rate_limit_lines has_byte
rate_limit_lines-headers m l c =
    header_line (rate_header l) (has_byte-append 10 l (codes "]") c refl) refl (
      int_line {key = codes "up_bps"} (spelled refl refl) _
        (int_line {key = codes "down_bps"} (spelled refl refl) _ last_blank))

-- The headers of the access section.
abbrev pub access_headers : AccessConfig → List Str
access_headers a =
    codes "[access]"
    ∷ codes "[access.users]"
    ∷ (table_header (codes "[access.user_max_tcp_conns]") a.user_max_tcp_conns
        ++ (table_header (codes "[access.user_max_unique_ips]") a.user_max_unique_ips
            ++ (table_header (codes "[access.user_data_quota]") a.user_data_quota
                ++ (table_header (codes "[access.user_expirations]") a.user_expirations
                    ++ (label_lines (λ l. rate_header l ∷ []) (sorted_keys a.user_rate_limits)
                        ++ table_header (codes "[access.user_enabled]") a.user_enabled)))))

abbrev pub mask_headers : List (Str × Str) → List Str
mask_headers m = table_header (codes "[censorship.exclusive_mask]") m

-- The headers of the censorship section: none without a domain.
abbrev pub censorship_headers : CensorshipConfig → List Str
censorship_headers c =
    if given c.tls_domain then codes "[censorship]" ∷ mask_headers c.exclusive_mask else []

each_none : {A : Type 0} (xs : List A) → each {A = A} (λ _. []) xs ≡ []
unfolding each
each_none [] = refl
each_none (x ∷ xs) = each_none xs

module _ (is_print : ℕ → Bool) where
  quote-plain : (s : Str) → is_header (quote is_print s) ≡ false
  unfolding quote
  quote-plain s = refl

  pub render_access_section-headers :
      (cfg : TelemtConfig)
      → Renders (render_access_section is_print cfg) (access_headers cfg.access)
  unfolding render_access_section has_byte
  render_access_section-headers cfg =
      let a = cfg.access in
      header_line (codes "[access]") refl refl (
        int_line {key = codes "replay_check_len"} (spelled refl refl) a.replay_check_len (
          int_line {key = codes "replay_window_secs"} (spelled refl refl) a.replay_window_secs (
            flag_line {key = codes "ignore_time_skew"} (spelled refl refl) a.ignore_time_skew (
              blank_line (
                header_line (codes "[access.users]") refl refl (
                  then_lines
                    (label_entries (λ l. quote is_print (value_at [] l a.users))
                      (sorted_keys a.users) (λ l. quote-Clean is_print (value_at [] l a.users)))
                    (blank_line (
                      then_lines
                        (access_table-headers _ format_int (pos 0) a.user_max_tcp_conns refl refl
                          format_int-Clean)
                        (then_lines
                          (access_table-headers _ format_int (pos 0) a.user_max_unique_ips refl refl
                            format_int-Clean)
                          (then_lines
                            (access_table-headers _ format_int (pos 0) a.user_data_quota refl refl
                              format_int-Clean)
                            (then_lines
                              (access_table-headers _ (quote is_print) [] a.user_expirations refl
                                refl (quote-Clean is_print))
                              (then_lines
                                (label_loop
                                  (λ l c h. rate_limit_lines-headers a.user_rate_limits l c)
                                  (sorted_keys a.user_rate_limits))
                                (access_table-headers _ format_bool false a.user_enabled refl refl
                                  format_bool-Clean)))))))))))))

  exclusive_mask_lines-headers :
      (m : List (Str × Str)) → Renders (exclusive_mask_lines is_print m) (mask_headers m)
  unfolding exclusive_mask_lines has_byte
  exclusive_mask_lines-headers [] = no_lines
  exclusive_mask_lines-headers (p ∷ m) =
      header_line (codes "[censorship.exclusive_mask]") refl refl (
        then_lines
          (subst
            (Renders (
              each (λ sni. text_entry is_print (quote is_print sni) (value_at [] sni (p ∷ m)) ∷ [])
                (sorted_keys (p ∷ m))))
            (each_none (sorted_keys (p ∷ m)))
            (each_lines {g = λ _. []}
              (λ sni.
                text_line {key = quote is_print sni}
                  (record { clean = quote-Clean is_print sni; plain = quote-plain sni }) is_print
                  (value_at [] sni (p ∷ m)) no_lines)
              (sorted_keys (p ∷ m))))
          last_blank)

  censorship_lines-headers :
      (c : CensorshipConfig)
      → Renders (censorship_lines is_print c) (codes "[censorship]" ∷ mask_headers c.exclusive_mask)
  unfolding censorship_lines has_byte
  censorship_lines-headers c = header_line (codes "[censorship]") refl refl (
      text_line {key = codes "tls_domain"} (spelled refl refl) is_print c.tls_domain (
        optional_array {key = codes "tls_domains"} (spelled refl refl) is_print _ c.tls_domains (
          text_line {key = codes "unknown_sni_action"} (spelled refl refl) is_print
            c.unknown_sni_action
            (flag_line {key = codes "mask"} (spelled refl refl) c.mask (
              int_line {key = codes "mask_port"} (spelled refl refl) c.mask_port (
                optional_text {key = codes "mask_host"} (spelled refl refl) is_print _ c.mask_host (
                  int_line {key = codes "fake_cert_len"} (spelled refl refl) c.fake_cert_len (
                    optional_int {key = codes "mask_relay_max_bytes"} (spelled refl refl) _
                      c.mask_relay_max_bytes
                      (optional_line c.tls_emulation (codes "tls_emulation = true") refl refl (
                        optional_text {key = codes "tls_front_dir"} (spelled refl refl) is_print _
                          c.tls_front_dir
                          (plain_line _ refl refl (
                            plain_line _ refl refl (
                              blank_line
                                (exclusive_mask_lines-headers c.exclusive_mask))))))))))))))

  pub render_censorship_section-headers :
      (cfg : TelemtConfig)
      → Renders (render_censorship_section is_print cfg) (censorship_headers cfg.censorship)
  unfolding render_censorship_section
  render_censorship_section-headers cfg = elim (Bool-cases (given cfg.censorship.tls_domain)) [
    | inl e ↦ rw e (censorship_lines-headers cfg.censorship)
    | inr e ↦ rw e no_lines
  ]

  upstream_lines-headers :
      (up : UpstreamConfig) → Renders (upstream_lines is_print up) (codes "[[upstreams]]" ∷ [])
  unfolding upstream_lines has_byte
  upstream_lines-headers up = header_line (codes "[[upstreams]]") refl refl (
      text_line {key = codes "type"} (spelled refl refl) is_print up.kind (
        int_line {key = codes "weight"} (spelled refl refl) up.weight (
          optional_text {key = codes "url"} (spelled refl refl) is_print _ up.url (
            optional_text {key = codes "address"} (spelled refl refl) is_print _ up.address (
              optional_text {key = codes "username"} (spelled refl refl) is_print _ up.username (
                optional_text {key = codes "password"} (spelled refl refl) is_print _ up.password (
                  optional_text {key = codes "user_id"} (spelled refl refl) is_print _ up.user_id (
                    optional_text {key = codes "interface"} (spelled refl refl) is_print _
                      up.interface
                      (pointed_line {key = codes "ipv4"} (spelled refl refl) up.ipv4 (
                        pointed_line {key = codes "ipv6"} (spelled refl refl) up.ipv6 (
                          optional_int {key = codes "prefer"} (spelled refl refl) _ up.prefer (
                            optional_text {key = codes "bindtodevice"} (spelled refl refl) is_print
                              _ up.bind_to_device last_blank))))))))))))

  pub render_upstreams_section-headers :
      (cfg : TelemtConfig)
      → Renders
          (render_upstreams_section is_print cfg)
          (each (λ up. codes "[[upstreams]]" ∷ []) cfg.upstreams)
  unfolding render_upstreams_section
  render_upstreams_section-headers cfg = each_lines upstream_lines-headers cfg.upstreams
