-- ===== src/Bus/Agrees.antt =====
-- infra/ws/bus.go: the agreement of the maps of clients with the channels of the clients, and the three
-- kinds of writes that keep it.
use vibeflow.Prelude.{
  ℕ, suc, ◌≤◌, ◌≡◌, Bool, true, false, not, ◌&&◌, String, List, [], ◌∷◌, Map, Option, none, some,
  lookup, insert, delete, has, lookup-insert, string_eq, nat_eq, ◌==◌, arith,
}
use vibeflow.Bus.{WsClient, WsEvent, index_client, unindex_client}
use vibeflow.Bus.Indexed.{indexed_at, has-insert, has-delete, indexed-index, indexed-unindex}

abbrev pub is_open : Option WsClient → Bool
is_open none = false
is_open (some c) = not c.closed

abbrev pub is_made : Option WsClient → Bool
is_made none = false
is_made (some c) = true

-- Whether a client is one for the events of the workflow.
abbrev pub listens : String → Option WsClient → Bool
listens w none = false
listens w (some c) = not (w == "") && c.workflow == w

-- The clients that are registered are those whose channel is open; the index of a workflow holds
-- exactly those of them that listen to it; and the
-- clients are those with a number below `made`.
pub record Agrees (clients : Map ℕ Bool) (index : Map String (Map ℕ Bool)) (heap : Map ℕ WsClient)
    (made : ℕ) : Type 0 where
  pub registered : (id : ℕ) → has id clients ≡ is_open (lookup id heap)
  pub indexed :
      (w : String) (id : ℕ)
      → indexed_at id w index ≡ (is_open (lookup id heap) && listens w (lookup id heap))
  pub free : (id : ℕ) → made ≤ id → lookup id heap ≡ none
  pub filled : (id : ℕ) → suc id ≤ made → is_made (lookup id heap) ≡ true

abbrev pub AllBelow : ℕ → List ℕ → Type 0
AllBelow n [] = Unit {0}
AllBelow n (id ∷ ts) = (suc id ≤ n) × AllBelow n ts

-- And the consumers have still to send to clients that were made.
abbrev pub Inv : WsEvent → Type 0
Inv e =
    Agrees e.clients e.workflow_clients e.heap e.made
    × AllBelow e.made e.to_all.targets
    × AllBelow e.made e.to_workflow.targets

module _ (clients : Map ℕ Bool) (index : Map String (Map ℕ Bool)) (heap : Map ℕ WsClient) (made : ℕ)
    (a : Agrees clients index heap made) where
  -- A write to a client that leaves its workflow and its channel open or closed.
  pub written-Agrees :
      (id : ℕ) (c d : WsClient)
      → lookup id heap ≡ some c
      → d.closed ≡ c.closed
      → d.workflow ≡ c.workflow
      → Agrees clients index (insert id d heap) made
  written-Agrees id c d there closed workflow = record {
    registered = λ j.
        ground
          (arith, there, closed, a.registered j, lookup-insert id j d heap, nat_eq.beq_iff id j);
    indexed = λ w j. ground (
      arith,
      there,
      closed,
      workflow,
      a.indexed w j,
      lookup-insert id j d heap,
      nat_eq.beq_iff id j,
    );
    free = λ j h. ground (arith, there, a.free j h, lookup-insert id j d heap, nat_eq.beq_iff id j);
    filled = λ j h. ground (arith, a.filled j h, lookup-insert id j d heap);
  }

  pub connected-Agrees :
      (c : WsClient)
      → c.closed ≡ false
      → Agrees
          (insert made true clients)
          (index_client made c.workflow index)
          (insert made c heap)
          (suc made)
  connected-Agrees c fresh = record {
    registered = λ j.
        ground (
          arith,
          fresh,
          a.registered j,
          lookup-insert made j c heap,
          has-insert made j true clients,
        );
    indexed = λ w j. ground (
      arith,
      fresh,
      a.indexed w j,
      a.free made,
      lookup-insert made j c heap,
      indexed-index made j c.workflow w index,
      nat_eq.beq_iff made j,
      string_eq.beq_iff c.workflow w,
    );
    free = λ j h. ground (arith, a.free j, lookup-insert made j c heap);
    filled = λ j h. ground (arith, a.filled j, lookup-insert made j c heap, nat_eq.beq_iff made j);
  }

  pub removed-Agrees :
      (id : ℕ) (c : WsClient)
      → lookup id heap ≡ some c
      → Agrees
          (delete id clients)
          (unindex_client id c.workflow index)
          (insert id (record c { closed = true }) heap)
          made
  removed-Agrees id c there = record {
    registered = λ j. ground (
      arith,
      there,
      a.registered j,
      lookup-insert id j (record c { closed = true }) heap,
      has-delete id j clients,
    );
    indexed = λ w j. ground (
      arith,
      there,
      a.indexed w j,
      lookup-insert id j (record c { closed = true }) heap,
      indexed-unindex id j c.workflow w index,
      nat_eq.beq_iff id j,
      string_eq.beq_iff c.workflow w,
    );
    free = λ j h. ground (
      arith,
      there,
      a.free j h,
      lookup-insert id j (record c { closed = true }) heap,
      nat_eq.beq_iff id j,
    );
    filled =
        λ j h. ground (arith, a.filled j h, lookup-insert id j (record c { closed = true }) heap);
  }
