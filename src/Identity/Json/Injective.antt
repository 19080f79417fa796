-- ===== src/Identity/Json/Injective.antt =====
-- Equal encodings come from equal objects: the text of an object can be read back.
use power_market_data_platfo.Base.{
  ℕ, ◌+◌, ◌*◌, ◌-◌, ◌<◌, ◌≡◌, refl, ap, Option, none, some, true, false, [], ◌∷◌, ◌++◌, ◌/◌, ◌%◌,
  inl, inr, Bool-cases, ==_iff, sym, ◌∙◌, ◌&&◌, append_assoc, arith, ltb, leb, ◌==◌, if◌then◌else◌,
  Text, Dict, All, all,
}
use power_market_data_platfo.Identity.Json.{
  backslash, quote, hex_digit, unicode_escape, escape_char, escaped, quoted, text_leb,
  insert_sorted, sort_keys, members, dumps,
}

-- Reads one digit.
abbrev unhex : ℕ → ℕ
unhex d = if ltb d 58 then d - 48 else d - 87

unhex-hex_digit : (n : ℕ) → n < 16 → unhex (hex_digit n) ≡ n
unhex-hex_digit n h = ground arith

abbrev unhex4 : ℕ → ℕ → ℕ → ℕ → ℕ
unhex4 a b c d = unhex a * 4096 + unhex b * 256 + unhex c * 16 + unhex d

-- Reads the character behind a backslash, if it is no `\u` escape.
abbrev short_escape : ℕ → ℕ
short_escape c =
    if c == b'n'
    then 10
    else if c == b'r'
    then 13
    else if c == b't'
    then 9
    else if c == b'b'
    then 8
    else if c == b'f'
    then 12
    else c

unescape_tail : Text → Option (ℕ × Text)
unescape_tail (u ∷ a ∷ b ∷ c ∷ d ∷ s) =
    if u == b'u' then some (unhex4 a b c d, s) else some (short_escape u, a ∷ b ∷ c ∷ d ∷ s)
unescape_tail (u ∷ s) = some (short_escape u, s)
unescape_tail [] = none

-- Reads one character of the inside of a literal; `none` at the closing quote.
unescape : Text → Option (ℕ × Text)
unfolding unescape_tail
unescape [] = none
unescape (c ∷ s) =
    if c == quote then none else if c == backslash then unescape_tail s else some (c, s)

abbrev pub IsBasic : Text → Type 0
IsBasic s = All (λ c. c < 65536) s

-- A constant text is basic by evaluation.
pub basic : (s : Text) → all (λ c. ltb c 65536) s ≡ true → IsBasic s
basic [] h = tt
basic (c ∷ s) h = (ground arith, basic s (ground arith))

unescape_tail_short :
    (u : ℕ) (s : Text) → (u == b'u') ≡ false → unescape_tail (u ∷ s) ≡ some (short_escape u, s)
unfolding unescape_tail
unescape_tail_short u [] h = refl
unescape_tail_short u (a ∷ []) h = refl
unescape_tail_short u (a ∷ b ∷ []) h = refl
unescape_tail_short u (a ∷ b ∷ c ∷ []) h = refl
unescape_tail_short u (a ∷ b ∷ c ∷ d ∷ s) h = rw h

unhex4-hex4 :
    (n : ℕ)
    → n < 65536
    → unhex4
        (hex_digit (n / 4096))
        (hex_digit (n / 256 % 16))
        (hex_digit (n / 16 % 16))
        (hex_digit (n % 16))
      ≡ n
unhex4-hex4 n h = omega (
  arith,
  unhex-hex_digit (n / 4096) (omega arith),
  unhex-hex_digit (n / 256 % 16) (omega arith),
  unhex-hex_digit (n / 16 % 16) (omega arith),
  unhex-hex_digit (n % 16) (omega arith),
)

unescape-unicode_escape :
    (c : ℕ) (s : Text) → c < 65536 → unescape (unicode_escape c ++ s) ≡ some (c, s)
unfolding unescape unicode_escape
unescape-unicode_escape c s h = elim (Bool-cases (ltb c 65536)) [
  | inl e ↦ rw e (ap (λ (k : ℕ). some (k, s)) (unhex4-hex4 c h))
  | inr e ↦ absurd (ground arith)
]

unescape_short :
    (u : ℕ) (s : Text)
    → (u == b'u') ≡ false
    → unescape (backslash ∷ u ∷ s) ≡ some (short_escape u, s)
unfolding unescape
unescape_short u s h = unescape_tail_short u s h

-- The escape `\u` with `short_escape u ≡ k` stands for the character `k`.
unescape_named :
    (c k u : ℕ) (s : Text)
    → (u == b'u') ≡ false
    → short_escape u ≡ k
    → (c == k) ≡ true
    → unescape (backslash ∷ u ∷ s) ≡ some (c, s)
unescape_named c k u s h named e =
    unescape_short u s h ∙ ap (λ (x : ℕ). some (x, s)) (named ∙ sym ((==_iff c k).0 e))

unescape_plain :
    (c : ℕ) (s : Text)
    → (c == quote) ≡ false
    → (c == backslash) ≡ false
    → unescape (c ∷ s) ≡ some (c, s)
unfolding unescape
unescape_plain c s h k = rw h (rw k)

-- A character is read back from its escape, whatever follows.
unescape-escape_char : (c : ℕ) (s : Text) → c < 65536 → unescape (escape_char c ++ s) ≡ some (c, s)
unfolding escape_char
unescape-escape_char c s h = elim (Bool-cases (c == quote)) [
  | inl e0 ↦ rw (e0) (unescape_named c quote quote s refl refl e0)
  | inr e0 ↦ elim (Bool-cases (c == backslash)) [
    | inl e1 ↦ rw (e0, e1) (unescape_named c backslash backslash s refl refl e1)
    | inr e1 ↦ elim (Bool-cases (leb 32 c && leb c 126)) [
      | inl e2 ↦ rw (e0, e1, e2) (unescape_plain c s e0 e1)
      | inr e2 ↦ elim (Bool-cases (c == 10)) [
        | inl e3 ↦ rw (e0, e1, e2, e3) (unescape_named c 10 b'n' s refl refl e3)
        | inr e3 ↦ elim (Bool-cases (c == 13)) [
          | inl e4 ↦ rw (e0, e1, e2, e3, e4) (unescape_named c 13 b'r' s refl refl e4)
          | inr e4 ↦ elim (Bool-cases (c == 9)) [
            | inl e5 ↦ rw (e0, e1, e2, e3, e4, e5) (unescape_named c 9 b't' s refl refl e5)
            | inr e5 ↦ elim (Bool-cases (c == 8)) [
              | inl e6 ↦ rw (e0, e1, e2, e3, e4, e5, e6) (unescape_named c 8 b'b' s refl refl e6)
              | inr e6 ↦ elim (Bool-cases (c == 12)) [
                | inl e7 ↦
                    rw (e0, e1, e2, e3, e4, e5, e6, e7) (unescape_named c 12 b'f' s refl refl e7)
                | inr e7 ↦ rw (e0, e1, e2, e3, e4, e5, e6, e7) (unescape-unicode_escape c s h)
              ]
            ]
          ]
        ]
      ]
    ]
  ]
]

unescape-quote : (r : Text) → unescape (quote ∷ r) ≡ none
unfolding unescape
unescape-quote r = refl

-- The first characters of two equal encodings agree, and so do the rests.
heads :
    (c d : ℕ) (s t r q : Text)
    → c < 65536
    → d < 65536
    → escaped (c ∷ s) ++ (quote ∷ r) ≡ escaped (d ∷ t) ++ (quote ∷ q)
    → ◌≡◌ {A = Option (ℕ × Text)}
        (some (c, escaped s ++ (quote ∷ r)))
        (some (d, escaped t ++ (quote ∷ q)))
unfolding escaped
heads c d s t r q hc hd e = cc (
  ap unescape (append_assoc (escape_char c) (escaped s) (quote ∷ r)),
  ap unescape (append_assoc (escape_char d) (escaped t) (quote ∷ q)),
  unescape-escape_char c (escaped s ++ quote ∷ r) hc,
  unescape-escape_char d (escaped t ++ quote ∷ q) hd,
)

-- An escaped text and its closing quote determine the text and what follows.
escaped_injective :
    (s t r q : Text)
    → IsBasic s
    → IsBasic t
    → escaped s ++ (quote ∷ r) ≡ escaped t ++ (quote ∷ q)
    → (s ≡ t) × (r ≡ q)
unfolding escaped
escaped_injective [] [] r q hs ht e = (refl, cc)
escaped_injective [] (d ∷ t) r q hs ht e = cc (
  ap unescape (append_assoc (escape_char d) (escaped t) (quote ∷ q)),
  unescape-escape_char d (escaped t ++ quote ∷ q) ht.0,
  unescape-quote r,
)
escaped_injective (c ∷ s) [] r q hs ht e = cc (
  ap unescape (append_assoc (escape_char c) (escaped s) (quote ∷ r)),
  unescape-escape_char c (escaped s ++ quote ∷ r) hs.0,
  unescape-quote q,
)
escaped_injective (c ∷ s) (d ∷ t) r q hs ht e =
    let rest = escaped_injective s t r q hs.1 ht.1 (cc (heads c d s t r q hs.0 ht.0 e)) in
    (cc (heads c d s t r q hs.0 ht.0 e, rest.0), rest.1)

-- A literal determines its text and what follows it.
quoted_injective :
    (s t r q : Text) → IsBasic s → IsBasic t → quoted s ++ r ≡ quoted t ++ q → (s ≡ t) × (r ≡ q)
unfolding quoted
quoted_injective s t r q hs ht e =
    escaped_injective s t r q hs ht (
      sym (append_assoc (escaped s) (quote ∷ []) r)
      ∙ cc e
      ∙ append_assoc (escaped t) (quote ∷ []) q)

abbrev pub IsBasicDict : Dict Text → Type 0
IsBasicDict d = All (λ e. IsBasic e.0 × IsBasic e.1) d

-- One member and what follows it.
member_injective :
    (k v k' v' r q : Text)
    → IsBasic k × IsBasic v
    → IsBasic k' × IsBasic v'
    → quoted k ++ (b':' ∷ (quoted v ++ r)) ≡ quoted k' ++ (b':' ∷ (quoted v' ++ q))
    → (k ≡ k') × (v ≡ v') × (r ≡ q)
member_injective k v k' v' r q h h' e =
    let (ek, rest) =
      quoted_injective k k' (b':' ∷ (quoted v ++ r)) (b':' ∷ (quoted v' ++ q)) h.0 h'.0 e in
    let (ev, er) = quoted_injective v v' r q h.1 h'.1 (cc rest) in (ek, ev, er)

members_injective :
    (d e : Dict Text) → IsBasicDict d → IsBasicDict e → members d ≡ members e → d ≡ e
unfolding members
members_injective [] [] hd he p = refl
members_injective [] (x ∷ []) hd he p = unfold quoted in cc p
members_injective [] (x ∷ y ∷ e) hd he p = unfold quoted in cc p
members_injective (x ∷ []) [] hd he p = unfold quoted in cc p
members_injective (x ∷ y ∷ d) [] hd he p = unfold quoted in cc p
members_injective ((k, v) ∷ []) ((k', v') ∷ []) hd he p =
    let (ek, ev, er) = member_injective k v k' v' (b'}' ∷ []) (b'}' ∷ []) hd.0 he.0 p in cc (ek, ev)
members_injective ((k, v) ∷ []) ((k', v') ∷ y ∷ e) hd he p =
    let (ek, ev, er) =
      member_injective k v k' v' (b'}' ∷ []) (b',' ∷ members (y ∷ e)) hd.0 he.0 p in
    cc er
members_injective ((k, v) ∷ y ∷ d) ((k', v') ∷ []) hd he p =
    let (ek, ev, er) =
      member_injective k v k' v' (b',' ∷ members (y ∷ d)) (b'}' ∷ []) hd.0 he.0 p in
    cc er
members_injective ((k, v) ∷ x ∷ d) ((k', v') ∷ y ∷ e) hd he p =
    let (ek, ev, er) =
      member_injective k v k' v' (b',' ∷ members (x ∷ d)) (b',' ∷ members (y ∷ e)) hd.0 he.0 p in
    cc (ek, ev, members_injective (x ∷ d) (y ∷ e) hd.1 he.1 (cc er))

insert_sorted-IsBasicDict :
    (x : Text × Text) (d : Dict Text)
    → IsBasic x.0 × IsBasic x.1
    → IsBasicDict d
    → IsBasicDict (insert_sorted x d)
insert_sorted-IsBasicDict x [] hx h = (hx, tt)
insert_sorted-IsBasicDict x (y ∷ d) hx h = elim (Bool-cases (text_leb x.0 y.0)) [
  | inl e ↦ rw e (hx, h)
  | inr e ↦ rw e (h.0, insert_sorted-IsBasicDict x d hx h.1)
]

sort_keys-IsBasicDict : (d : Dict Text) → IsBasicDict d → IsBasicDict (sort_keys d)
unfolding sort_keys
sort_keys-IsBasicDict [] h = h
sort_keys-IsBasicDict (x ∷ d) h =
    insert_sorted-IsBasicDict x (sort_keys d) h.0 (sort_keys-IsBasicDict d h.1)

-- Two objects of texts in the basic plane with the same JSON text have the same members in sorted
-- order.
pub dumps_injective :
    (d e : Dict Text)
    → IsBasicDict d
    → IsBasicDict e
    → dumps d ≡ dumps e
    → sort_keys d ≡ sort_keys e
unfolding dumps
dumps_injective d e hd he p =
    members_injective (sort_keys d) (sort_keys e) (sort_keys-IsBasicDict d hd)
      (sort_keys-IsBasicDict e he) (cc p)
