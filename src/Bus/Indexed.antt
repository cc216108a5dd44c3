-- ===== src/Bus/Indexed.antt =====
-- infra/ws/bus.go: the two maps of clients and the channels of the clients agree.
use vibeflow.Prelude.{
  ℕ, ◌≡◌, Bool, true, false, not, ◌&&◌, ◌||◌, String, [], ◌∷◌, Map, insert, delete, has,
  lookup-insert, lookup-delete, string_eq, nat_eq, Eq, ◌==◌, if◌then◌else◌, arith,
}
use vibeflow.Bus.{members, index_client, put_members, unindex_client}

module _ {K : Type 0} {V : Type 0} ⦃e : Eq K⦄ where
  pub has-insert : (k j : K) (v : V) (m : Map K V) → has j (insert k v m) ≡ (k == j || has j m)
  unfolding has
  has-insert k j v m = ground (arith, lookup-insert k j v m)

  pub has-delete :
      (k j : K) (m : Map K V) → has j (delete k m) ≡ (if k == j then false else has j m)
  unfolding has
  has-delete k j m = ground (arith, lookup-delete k j m)

members-insert :
    (v w : String) (s : Map ℕ Bool) (m : Map String (Map ℕ Bool))
    → members w (insert v s m) ≡ (if v == w then s else members w m)
members-insert v w s m = ground (arith, lookup-insert v w s m)

members-put :
    (v w : String) (s : Map ℕ Bool) (m : Map String (Map ℕ Bool))
    → members w (put_members v s m) ≡ (if v == w then s else members w m)
unfolding put_members
members-put v w [] m = ground (arith, lookup-delete v w m)
members-put v w (c ∷ cs) m = members-insert v w (c ∷ cs) m

unfoldable pub indexed_at : ℕ → String → Map String (Map ℕ Bool) → Bool
indexed_at id w m = has id (members w m)

pub indexed-index :
    (i j : ℕ) (v w : String) (m : Map String (Map ℕ Bool))
    → indexed_at j w (index_client i v m)
      ≡ ((not (v == "") && (v == w && i == j)) || indexed_at j w m)
unfolding index_client indexed_at
indexed-index i j v w m =
    let eq = string_eq.beq_iff v w in
    ground (
      arith,
      eq,
      members-insert v w (insert i true (members v m)) m,
      has-insert i j true (members v m),
    )

pub indexed-unindex :
    (i j : ℕ) (v w : String) (m : Map String (Map ℕ Bool))
    → indexed_at j w (unindex_client i v m)
      ≡ (not (not (v == "") && (v == w && i == j)) && indexed_at j w m)
unfolding unindex_client indexed_at
indexed-unindex i j v w m =
    let eq = string_eq.beq_iff v w in
    ground (arith, eq, members-put v w (delete i (members v m)) m, has-delete i j (members v m))
