-- ===== src/Store/Scan/Found.antt =====
-- infra/store/model.go: the scan finds no key within a value that was written.
use vibeflow.Prelude.{
  ℕ, ◌≡◌, refl, ap, ◌∙◌, false, [], ◌∷◌, ◌++◌, none, nat_eq, nat_beq, if_true, if_false, arith,
  Bool-cases, inl, inr,
}
use vibeflow.Store.Scan.{Text, after_prefix, after_first, escape}
use vibeflow.Store.Scan.Coded.{Letters, coded, written}

-- What follows a value in a record.
abbrev pub then_comma : Text → Text → Text
then_comma w t = escape w ++ 34 ∷ 44 ∷ t

differs : (y x : ℕ) (p q : Text) → nat_beq y x ≡ false → after_prefix (y ∷ p) (x ∷ q) ≡ none
unfolding after_prefix
differs y x p q h = if_false _ _ _ h

fails_on : (y x : ℕ) (p q : Text) → after_prefix p q ≡ none → after_prefix (y ∷ p) (x ∷ q) ≡ none
unfolding after_prefix
fails_on y x p q h = elim (Bool-cases (nat_beq y x)) [
  | inl b ↦ if_true _ _ _ b ∙ h
  | inr b ↦ if_false _ _ _ b
]

-- A key with its quote and colon does not stand before the end of a value.
module _ (t : Text) where
  pub unfound :
      (k as' w : Text)
      → Letters k
      → Letters as'
      → after_prefix (k ++ 34 ∷ 58 ∷ []) (as' ++ then_comma w t) ≡ none
  unfolding after_prefix escape
  unfound [] [] [] lk la = refl
  unfound [] (x ∷ xs) w lk (q, b, la) =
      differs 34 x (58 ∷ []) (xs ++ then_comma w t) (ground (arith, q))
  unfound [] [] (c ∷ w) lk la = elim (coded c) [
    | inl (e, m, q, b) ↦
        ap (after_prefix (34 ∷ 58 ∷ [])) (written c (c ∷ []) w (34 ∷ 44 ∷ t) e)
        ∙ differs 34 c (58 ∷ []) (then_comma w t) (ground (arith, q))
    | inr (a, as', e, m, l) ↦
        ap (after_prefix (34 ∷ 58 ∷ [])) (written c (92 ∷ a ∷ as') w (34 ∷ 44 ∷ t) e)
  ]
  unfound (y ∷ k) [] [] (qk, bk, lk) la = differs y 34 (k ++ 34 ∷ 58 ∷ []) (44 ∷ t) qk
  unfound (y ∷ k) (x ∷ xs) w (qk, bk, lk) (q, b, la) =
      fails_on y x (k ++ 34 ∷ 58 ∷ []) (xs ++ then_comma w t) (unfound k xs w lk la)
  unfound (y ∷ k) [] (c ∷ w) (qk, bk, lk) la =
      let p = k ++ 34 ∷ 58 ∷ [] in
      elim (coded c) [
        | inl (e, m, q, b) ↦
            ap (after_prefix (y ∷ p)) (written c (c ∷ []) w (34 ∷ 44 ∷ t) e)
            ∙ fails_on y c p (then_comma w t) (unfound k [] w lk tt)
        | inr (a, as', e, m, l) ↦
            ap (after_prefix (y ∷ p)) (written c (92 ∷ a ∷ as') w (34 ∷ 44 ∷ t) e)
            ∙ differs y 92 p (a ∷ (as' ++ then_comma w t)) bk
      ]

  module _ (k : Text) (lk : Letters k) where
    unfoldable pub key_mark : Text
    key_mark = 34 ∷ (k ++ 34 ∷ 58 ∷ [])

    pass :
        (c : ℕ) (q : Text)
        → after_prefix key_mark (c ∷ q) ≡ none
        → after_first key_mark (c ∷ q) ≡ after_first key_mark q
    unfolding after_first
    pass c q h = rw (h, after_first) refl

    pub pass_before :
        (c : ℕ) (q : Text)
        → after_prefix (k ++ 34 ∷ 58 ∷ []) q ≡ none
        → after_first key_mark (c ∷ q) ≡ after_first key_mark q
    unfolding key_mark
    pass_before c q h = pass c q (fails_on 34 c (k ++ 34 ∷ 58 ∷ []) q h)

    pass-Letters :
        (as' w : Text)
        → Letters as'
        → after_first key_mark (as' ++ then_comma w t) ≡ after_first key_mark (then_comma w t)
    pass-Letters [] w l = refl
    pass-Letters (x ∷ xs) w (q, b, l) =
        pass_before x (xs ++ then_comma w t) (unfound k xs w lk l) ∙ pass-Letters xs w l

    pub pass-value :
        (w : Text) → after_first key_mark (then_comma w t) ≡ after_first key_mark (34 ∷ 44 ∷ t)
    unfolding escape key_mark
    pass-value [] = refl
    pass-value (c ∷ w) = elim (coded c) [
      | inl (e, m, q, b) ↦
          ap (after_first key_mark) (written c (c ∷ []) w (34 ∷ 44 ∷ t) e)
          ∙ pass_before c (then_comma w t) (unfound k [] w lk tt)
          ∙ pass-value w
      | inr (a, as', e, m, l) ↦
          let q = as' ++ then_comma w t in
          ap (after_first key_mark) (written c (92 ∷ a ∷ as') w (34 ∷ 44 ∷ t) e)
          ∙ pass 92 (a ∷ q) (differs 34 92 (k ++ 34 ∷ 58 ∷ []) (a ∷ q) refl)
          ∙ pass_before a q (unfound k as' w lk l)
          ∙ pass-Letters as' w l
          ∙ pass-value w
    ]
