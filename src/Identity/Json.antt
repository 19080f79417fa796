-- ===== src/Identity/Json.antt =====
-- `json.dumps` with sorted keys, compact separators and ASCII output, over a flat object of texts,
-- as identity.py calls it.
pub mod Injective
pub mod Order
use power_market_data_platfo.Base.{
  ℕ, ◌+◌, ◌-◌, ◌/◌, ◌%◌, Bool, true, false, ◌&&◌, [], ◌∷◌, ◌++◌, ltb, leb, ◌==◌, if◌then◌else◌,
  Text, Dict,
}

abbrev pub backslash : ℕ
backslash = 92

abbrev pub quote : ℕ
quote = 34

-- One lowercase hexadecimal digit.
abbrev pub hex_digit : ℕ → ℕ
hex_digit n = if ltb n 10 then n + 48 else n + 87

pub hex4 : ℕ → Text
hex4 n =
    hex_digit (n / 4096)
    ∷ hex_digit (n / 256 % 16)
    ∷ hex_digit (n / 16 % 16)
    ∷ hex_digit (n % 16)
    ∷ []

-- `\uXXXX`, and a surrogate pair above the basic plane.
pub unicode_escape : ℕ → Text
unfolding hex4
unicode_escape c =
    if ltb c 65536
    then backslash ∷ b'u' ∷ hex4 c
    else (backslash ∷ b'u' ∷ hex4 ((c - 65536) / 1024 + 55296))
      ++ (backslash ∷ b'u' ∷ hex4 ((c - 65536) % 1024 + 56320))

-- The escape of one character: printable ASCII stands for itself, but for `"` and `\`.
pub escape_char : ℕ → Text
unfolding unicode_escape
escape_char c =
    if c == quote
    then backslash ∷ quote ∷ []
    else if c == backslash
    then backslash ∷ backslash ∷ []
    else if leb 32 c && leb c 126
    then c ∷ []
    else if c == 10
    then backslash ∷ b'n' ∷ []
    else if c == 13
    then backslash ∷ b'r' ∷ []
    else if c == 9
    then backslash ∷ b't' ∷ []
    else if c == 8
    then backslash ∷ b'b' ∷ []
    else if c == 12
    then backslash ∷ b'f' ∷ []
    else unicode_escape c

pub escaped : Text → Text
unfolding escape_char
escaped [] = []
escaped (c ∷ s) = escape_char c ++ escaped s

pub quoted : Text → Text
unfolding escaped
quoted s = quote ∷ (escaped s ++ quote ∷ [])

-- Python's order on texts, by code points.
abbrev pub text_leb : Text → Text → Bool
text_leb [] t = true
text_leb (a ∷ s) [] = false
text_leb (a ∷ s) (b ∷ t) = if ltb a b then true else (a == b) && text_leb s t

abbrev insert_sorted : Text × Text → Dict Text → Dict Text
insert_sorted e [] = e ∷ []
insert_sorted e (f ∷ d) = if text_leb e.0 f.0 then e ∷ f ∷ d else f ∷ insert_sorted e d

-- `sort_keys=True`.
unfoldable pub sort_keys : Dict Text → Dict Text
sort_keys [] = []
sort_keys (e ∷ d) = insert_sorted e (sort_keys d)

-- The members of the object, each followed by what the list goes on with.
pub members : Dict Text → Text
unfolding quoted
members [] = b'}' ∷ []
members ((k, v) ∷ []) = quoted k ++ (b':' ∷ (quoted v ++ b'}' ∷ []))
members ((k, v) ∷ e ∷ d) = quoted k ++ (b':' ∷ (quoted v ++ (b',' ∷ members (e ∷ d))))

unfoldable pub dumps : Dict Text → Text
unfolding members sort_keys
dumps d = b'{' ∷ members (sort_keys d)
