-- ===== src/Store/Scan/Coded.antt =====
-- infra/store/model.go: how a value is written in a record, and read by the scan.
use vibeflow.Prelude.{
  ℕ, ◌/◌, ◌%◌, ◌≡◌, ◌⊎◌, refl, sym, ap, ◌∙◌, subst, false, [], ◌∷◌, ◌++◌, Option, none, some,
  lookup, nat_eq, nat_beq, nat_beq_iff, if_true, if_false, arith, Option-cases, Bool-cases, inl,
  inr,
}
use mathlib.Core.List.{append_assoc}
use vibeflow.Store.Scan.{
  Text, longer, read_text, hex_digit, hex_digits, shown_point, short_forms, in_hex, escaped_as,
  escape_code, escape,
}

-- The text with the letters of an escaped byte in its place.
unfoldable pub mangled_code : ℕ → Text
unfolding escaped_as
mangled_code c = elim (escaped_as c) [ none ↦ c ∷ [] | some t ↦ t ]

unfoldable pub mangled : Text → Text
unfolding mangled_code
mangled [] = []
mangled (c ∷ cs) = mangled_code c ++ mangled cs

-- No quote and no backslash.
abbrev pub Letters : Text → Type 0
Letters [] = Unit {0}
Letters (x ∷ xs) = (nat_beq x 34 ≡ false) × (nat_beq x 92 ≡ false) × Letters xs

abbrev pub Plain : ℕ → Type 0
Plain c =
    (escape_code c ≡ c ∷ [])
    × (mangled_code c ≡ c ∷ [])
    × (nat_beq c 34 ≡ false)
    × (nat_beq c 92 ≡ false)

abbrev pub Escaped : ℕ → Type 0
Escaped c =
    (a : ℕ) × (as' : Text) × (escape_code c ≡ 92 ∷ a ∷ as')
    × (mangled_code c ≡ a ∷ as')
    × Letters as'

hex_digit-Letters : (n : ℕ) → Letters (hex_digit n ∷ [])
hex_digit-Letters n = (ground arith, ground arith, tt)

unlisted :
    (c q : ℕ) → lookup c short_forms ≡ none → lookup q short_forms ≡ some q → nat_beq c q ≡ false
unlisted c q none_there there = elim (Bool-cases (nat_beq c q)) [
  | inl b ↦
      let same : c ≡ q = (nat_beq_iff c q).0 b in
      let both : lookup c short_forms ≡ some q =
        subst (λ x. lookup x short_forms ≡ some q) (sym same) there in
      absurd (cc)
  | inr b ↦ b
]

by_code : (c a : ℕ) (as' : Text) → escaped_as c ≡ some (a ∷ as') → Letters as' → Escaped c
unfolding escape_code mangled_code
by_code c a as' h l = (a, as', rw (h, escape_code) refl, rw (h, mangled_code) refl, l)

-- A byte is either written as it is, or as a backslash and letters.
pub coded : (c : ℕ) → Plain c ⊎ Escaped c
unfolding escape_code mangled_code
coded c = elim (Option-cases (lookup c short_forms)) [
  | inr (a, n) ↦ inr (by_code c a [] (unfold escaped_as in rw (n, escaped_as) refl) tt)
  | inl n ↦ elim (Bool-cases (in_hex c)) [
    | inl b ↦
        let d = shown_point c in
        let (h, h', _) = hex_digit-Letters (d / 4096 % 16) in
        let (i, i', _) = hex_digit-Letters (d / 256 % 16) in
        let (j, j', _) = hex_digit-Letters (d / 16 % 16) in
        let (l, l', _) = hex_digit-Letters (d % 16) in
        inr (
          by_code c 117 (hex_digits d) (unfold escaped_as in rw (n, escaped_as) (if_true _ _ _ b))
            (h, h', (i, i', (j, j', (l, l', tt)))))
    | inr b ↦
        let as_is : escaped_as c ≡ none =
          unfold escaped_as in rw (n, escaped_as) (if_false _ _ _ b) in
        inl (
          rw (as_is, escape_code) refl,
          rw (as_is, mangled_code) refl,
          (unfold lookup in unlisted c 34 n refl),
          (unfold lookup in unlisted c 92 n refl),
        )
  ]
]

ahead : Text → Option Text → Option Text
ahead [] o = o
ahead (c ∷ cs) o = longer c (ahead cs o)

read_text-Letters :
    (as' : Text) (t : Text)
    → Letters as'
    → read_text false (as' ++ t) ≡ ahead as' (read_text false t)
unfolding read_text ahead
read_text-Letters [] t l = refl
read_text-Letters (x ∷ xs) t (q, b, l) = rw (b, q, read_text-Letters xs t l) refl

ahead-some : (as' t : Text) → ahead as' (some t) ≡ some (as' ++ t)
unfolding ahead
ahead-some [] t = refl
ahead-some (x ∷ xs) t = rw (ahead-some xs t) refl

read_text-escaped :
    (a : ℕ) (as' t w : Text)
    → Letters as'
    → read_text false t ≡ some w
    → read_text false (92 ∷ a ∷ (as' ++ t)) ≡ some (a ∷ (as' ++ w))
unfolding read_text
read_text-escaped a as' t w l h =
    ap (longer a) (read_text-Letters as' t l ∙ ap (ahead as') h ∙ ahead-some as' w)

pub written :
    (c : ℕ) (x w t : Text) → escape_code c ≡ x → (escape (c ∷ w) ++ t) ≡ (x ++ (escape w ++ t))
unfolding escape
written c x w t e = ap (λ z. (z ++ escape w) ++ t) e ∙ append_assoc x (escape w) t

pub read_text-escape : (w t : Text) → read_text false (escape w ++ 34 ∷ t) ≡ some (mangled w)
unfolding read_text mangled escape
read_text-escape [] t = refl
read_text-escape (c ∷ w) t =
    let rest = read_text-escape w t in
    elim (coded c) [
      | inl (e, m, q, b) ↦
          ap (read_text false) (written c (c ∷ []) w (34 ∷ t) e)
          ∙ rw (b, q, rest) refl
          ∙ ap (λ x. some (x ++ mangled w)) (sym m)
      | inr (a, as', e, m, l) ↦
          ap (read_text false) (written c (92 ∷ a ∷ as') w (34 ∷ t) e)
          ∙ read_text-escaped a as' (escape w ++ 34 ∷ t) (mangled w) l rest
          ∙ ap (λ x. some (x ++ mangled w)) (sym m)
    ]
