-- ===== src/Scheduler/Listeners/Entries.antt =====
-- The entries of a map from texts (scheduler.go keeps its listeners in such maps).
use vibeflow.Prelude.{
  ◌≡◌, subst, String, [], ◌∷◌, Map, some, lookup, insert, delete, string_eq, nat_eq, ◌==◌, arith,
  Bool-cases, inl, inr,
}

module _ {V : Type 0} where
  pub insert-insert :
      (k : String) (v w : V) (m : Map String V) → insert k v (insert k w m) ≡ insert k v m
  unfolding insert
  insert-insert k v w [] = ground (arith, string_eq.beq_iff k k)
  insert-insert k v w ((i, x) ∷ m) =
      ground (arith, string_eq.beq_iff k k, string_eq.beq_iff i k, insert-insert k v w m)

  -- Every value of the map.
  abbrev pub All : (V → Type 0) → Map String V → Type 0
  All P [] = Unit {0}
  All P ((k, v) ∷ m) = P v × All P m

  pub All-insert :
      (P : V → Type 0) (k : String) (v : V) (m : Map String V)
      → P v
      → All P m
      → All P (insert k v m)
  unfolding insert
  All-insert P k v [] p a = (p, tt)
  All-insert P k v ((i, w) ∷ m) p a = elim (Bool-cases (i == k)) [
    | inl same ↦ rw same (p, a.1)
    | inr other ↦ rw other (a.0, All-insert P k v m p a.1)
  ]

  pub All-delete : (P : V → Type 0) (k : String) (m : Map String V) → All P m → All P (delete k m)
  unfolding delete
  All-delete P k [] a = tt
  All-delete P k ((i, w) ∷ m) a = elim (Bool-cases (i == k)) [
    | inl same ↦ rw same (All-delete P k m a.1)
    | inr other ↦ rw other (a.0, All-delete P k m a.1)
  ]

  pub All-lookup :
      (P : V → Type 0) (k : String) (v : V) (m : Map String V) → All P m → lookup k m ≡ some v → P v
  unfolding lookup
  All-lookup P k v [] a h = cc
  All-lookup P k v ((i, w) ∷ m) a h = elim (Bool-cases (i == k)) [
    | inl same ↦ let e : w ≡ v = ground (arith, h, same) in subst P e a.0
    | inr other ↦ All-lookup P k v m a.1 (ground (arith, h, other))
  ]

pub All-weaken :
    {V : Type 0} (P Q : V → Type 0) (m : Map String V) → ((v : V) → P v → Q v) → All P m → All Q m
All-weaken P Q [] f a = tt
All-weaken P Q ((k, v) ∷ m) f a = (f v a.0, All-weaken P Q m f a.1)
