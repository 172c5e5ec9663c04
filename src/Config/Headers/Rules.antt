-- ===== src/Config/Headers/Rules.antt =====
-- The lines of a text, its table headers, and the rules by which a section is seen to write its own.
use popu_gate.Prelude.{
  ℕ, ◌≡◌, refl, ap, ◌∙◌, Bool, true, false, Str, codes, List, [], ◌∷◌, ◌++◌, arith, if◌then◌else◌,
  ◌==◌, All, Bool-cases, inl, inr,
}
use popu_gate.UpstreamNames.Text.{has_byte}
use popu_gate.Format.Clean.{Clean, has_byte-append}
use popu_gate.Config.Lines.{unlines, entry, optional, each, label_lines}
use popu_gate.Model.Secret.{validate_label, all_label_chars, is_label_char}

abbrev pub prepend : ℕ → List Str → List Str
prepend c [] = (c ∷ []) ∷ []
prepend c (l ∷ ls) = (c ∷ l) ∷ ls

-- The lines of a text; behind the last line feed stands one more line.
unfoldable pub split_lines : Str → List Str
split_lines [] = [] ∷ []
split_lines (c ∷ s) = if c == 10 then [] ∷ split_lines s else prepend c (split_lines s)

-- The line begins with a bracket, so it is a table header.
abbrev pub is_header : Str → Bool
is_header [] = false
is_header (c ∷ l) = c == b'['

unfoldable pub header_lines : List Str → List Str
header_lines [] = []
header_lines (l ∷ ls) = if is_header l then l ∷ header_lines ls else header_lines ls

-- The table headers of a text.
unfoldable pub headers : Str → List Str
unfolding split_lines header_lines
headers text = header_lines (split_lines text)

-- No line has a line feed inside, and these are the headers among the lines.
pub record Renders (ls hs : List Str) : Type 0 where
  pub clean : All Clean ls
  pub tables : header_lines ls ≡ hs

pub no_lines : Renders [] []
unfolding header_lines
no_lines = record { clean = tt; tables = refl }

module _ {ls hs : List Str} where
  pub header_line :
      (l : Str) → Clean l → is_header l ≡ true → Renders ls hs → Renders (l ∷ ls) (l ∷ hs)
  unfolding header_lines
  header_line l c h r = record {
    clean = (c, r.clean);
    tables = rw h (ap (λ (t : List Str). l ∷ t) r.tables);
  }

  pub plain_line : (l : Str) → Clean l → is_header l ≡ false → Renders ls hs → Renders (l ∷ ls) hs
  unfolding header_lines
  plain_line l c h r = record { clean = (c, r.clean); tables = rw h r.tables }

  pub entry_line :
      (key value : Str)
      → Clean key
      → is_header key ≡ false
      → Clean value
      → Renders ls hs
      → Renders (entry key value ∷ ls) hs
  unfolding has_byte
  entry_line [] value c h v r = plain_line (entry [] value) v refl r
  entry_line (k ∷ key) value c h v r =
      plain_line (entry (k ∷ key) value) (has_byte-append 10 (k ∷ key) (codes " = " ++ value) c v) h
        r

  pub optional_line :
      (b : Bool) (l : Str)
      → Clean l
      → is_header l ≡ false
      → Renders ls hs
      → Renders (optional b l ++ ls) hs
  optional_line true l c h r = plain_line l c h r
  optional_line false l c h r = r

All-append : (a b : List Str) → All Clean a → All Clean b → All Clean (a ++ b)
All-append [] b h k = k
All-append (l ∷ a) b h k = (h.0, All-append a b h.1 k)

header_lines-append : (a b : List Str) → header_lines (a ++ b) ≡ header_lines a ++ header_lines b
unfolding header_lines
header_lines-append [] b = refl
header_lines-append (l ∷ a) b = ground (arith, header_lines-append a b)

pub then_lines : {a b hs ks : List Str} → Renders a hs → Renders b ks → Renders (a ++ b) (hs ++ ks)
then_lines {a = a} {b = b} r s = record {
  clean = All-append a b r.clean s.clean;
  tables = rw (header_lines-append a b, r.tables, s.tables) refl;
}

pub each_lines :
    {A : Type 0} {f g : A → List Str}
    → ((x : A) → Renders (f x) (g x))
    → (xs : List A) → Renders (each f xs) (each g xs)
unfolding each
each_lines r [] = no_lines
each_lines r (x ∷ xs) = then_lines (r x) (each_lines r xs)

all_label_chars-Clean : (l : Str) → all_label_chars l ≡ true → Clean l
unfolding has_byte all_label_chars is_label_char
all_label_chars-Clean [] h = refl
all_label_chars-Clean (c ∷ l) h = ground (arith, all_label_chars-Clean l)

all_label_chars-plain : (l : Str) → all_label_chars l ≡ true → is_header l ≡ false
unfolding all_label_chars is_label_char
all_label_chars-plain [] h = refl
all_label_chars-plain (c ∷ l) h = ground arith

-- The characters of a label are those of a bare key.
pub label-plain : (l : Str) → validate_label l ≡ true → Clean l × (is_header l ≡ false)
unfolding validate_label
label-plain l h =
    let chars : all_label_chars l ≡ true = ground arith in
    (all_label_chars-Clean l chars, all_label_chars-plain l chars)

pub label_loop :
    {f g : Str → List Str}
    → ((l : Str) → Clean l → is_header l ≡ false → Renders (f l) (g l))
    → (ls : List Str) → Renders (label_lines f ls) (label_lines g ls)
unfolding label_lines
label_loop r [] = no_lines
label_loop r (l ∷ ls) = elim (Bool-cases (validate_label l)) [
  | inl e ↦ rw e (then_lines (r l (label-plain l e).0 (label-plain l e).1) (label_loop r ls))
  | inr e ↦ rw e (label_loop r ls)
]

-- A loop whose rounds write no header writes none.
pub label_loop_none : (ls : List Str) → label_lines (λ _. []) ls ≡ []
unfolding label_lines
label_loop_none [] = refl
label_loop_none (l ∷ ls) = ground (arith, label_loop_none ls)

split_lines-line : (l s : Str) → Clean l → split_lines (l ++ 10 ∷ s) ≡ l ∷ split_lines s
unfolding split_lines has_byte
split_lines-line [] s h = refl
split_lines-line (c ∷ l) s h = ground (arith, split_lines-line l s)

split_lines-unlines : (ls : List Str) → All Clean ls → split_lines (unlines ls) ≡ ls ++ [] ∷ []
unfolding unlines split_lines
split_lines-unlines [] h = refl
split_lines-unlines (l ∷ ls) h =
    split_lines-line l (unlines ls) h.0 ∙ ap (λ (t : List Str). l ∷ t) (split_lines-unlines ls h.1)

header_lines-end : (ls : List Str) → header_lines (ls ++ [] ∷ []) ≡ header_lines ls
unfolding header_lines
header_lines-end [] = refl
header_lines-end (l ∷ ls) = ground (arith, header_lines-end ls)

pub headers-unlines : {ls hs : List Str} → Renders ls hs → headers (unlines ls) ≡ hs
unfolding headers
headers-unlines {ls = ls} r =
    ap header_lines (split_lines-unlines ls r.clean) ∙ (header_lines-end ls ∙ r.tables)
