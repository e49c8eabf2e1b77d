-- ===== src/Projections/Rebuild/Order.antt =====
-- The events that `_iter_relationship_events` gives to a rebuild.
use muse_agent_social.Prelude.{
  String, Bool, true, false, List, [], ◌∷◌, ◌≡◌, refl, inl, inr, arith, Bool-cases, eq_iff, sym,
  text_lt, ltb, ◌<◌,
}
use muse_agent_social.Prelude.TextOrder.{text_lt-asym, text_lt-cases}
use muse_agent_social.Prelude.Table.{count}
use muse_agent_social.Store.Events.{Event}
use muse_agent_social.Store.Tables.{Db}
use muse_agent_social.Projections.Rebuild.{
  before, insert_in_order, sort_events, joined, relationship_events,
}

-- `x` does not come after `y`: created earlier, or at the same time by an earlier sender, or by the
-- same sender with a smaller number, or with the same number and an id that is no later.
pub data InOrder (x y : Event) : Type 0 where
  earlier : text_lt x.created_at y.created_at ≡ true → InOrder x y
  by_sender : x.created_at ≡ y.created_at → text_lt x.sender y.sender ≡ true → InOrder x y
  by_number :
      x.created_at ≡ y.created_at → x.sender ≡ y.sender → x.sender_seq < y.sender_seq → InOrder x y
  by_id :
      x.created_at ≡ y.created_at
      → x.sender ≡ y.sender
      → x.sender_seq ≡ y.sender_seq
      → text_lt y.event_id x.event_id ≡ false
      → InOrder x y

before-InOrder : (x y : Event) → before x y ≡ true → InOrder x y
unfolding before
before-InOrder x y h = elim (Bool-cases (text_lt x.created_at y.created_at)) [
  | inl c ↦ earlier c
  | inr c ↦
      let same = (eq_iff x.created_at y.created_at).0 (ground (arith, h, c)) in
      elim (Bool-cases (text_lt x.sender y.sender)) [
        | inl d ↦ by_sender same d
        | inr d ↦
            let sender = (eq_iff x.sender y.sender).0 (ground (arith, h, c, d)) in
            elim (Bool-cases (ltb x.sender_seq y.sender_seq)) [
              | inl e ↦ by_number same sender (ground (arith, e))
              | inr e ↦
                  by_id same sender (ground (arith, h, c, d, e))
                    (text_lt-asym x.event_id y.event_id (ground (arith, h, c, d, e)))
            ]
      ]
]

not_before-InOrder : (x y : Event) → before y x ≡ false → InOrder x y
unfolding before
not_before-InOrder x y h = elim (text_lt-cases x.created_at y.created_at) [
  | inl c ↦ earlier c
  | inr (inr c) ↦ ground (arith, h, c)
  | inr (inl same) ↦ elim (text_lt-cases x.sender y.sender) [
    | inl d ↦ by_sender same d
    | inr (inr d) ↦ ground (arith, h, d, (eq_iff y.created_at x.created_at).1 (sym same))
    | inr (inl sender) ↦ elim (Bool-cases (ltb x.sender_seq y.sender_seq)) [
      | inl e ↦ by_number same sender (ground (arith, e))
      | inr e ↦
          let facts = (eq_iff y.created_at x.created_at).1 (sym same) in
          let facts' = (eq_iff y.sender x.sender).1 (sym sender) in
          by_id same sender (ground (arith, h, e, facts, facts'))
            (ground (arith, h, e, facts, facts'))
    ]
  ]
]

abbrev StartsAfter : Event → List Event → Type 0
StartsAfter x [] = Unit
StartsAfter x (y ∷ ys) = InOrder x y

abbrev pub IsSorted : List Event → Type 0
IsSorted [] = Unit
IsSorted (x ∷ xs) = StartsAfter x xs × IsSorted xs

count-insert_in_order :
    (p : Event → Bool) (e : Event) (es : List Event)
    → count p (insert_in_order e es) ≡ count p (e ∷ es)
unfolding insert_in_order count
count-insert_in_order p e [] = refl
count-insert_in_order p e (x ∷ xs) = ground (arith, count-insert_in_order p e xs)

count-sort_events : (p : Event → Bool) (es : List Event) → count p (sort_events es) ≡ count p es
unfolding sort_events count
count-sort_events p [] = refl
count-sort_events p (e ∷ es) =
    omega (arith, count-insert_in_order p e (sort_events es), count-sort_events p es)

starts-insert_in_order :
    (x e : Event) (es : List Event)
    → InOrder x e
    → StartsAfter x es
    → StartsAfter x (insert_in_order e es)
unfolding insert_in_order
starts-insert_in_order x e [] h k = h
starts-insert_in_order x e (y ∷ ys) h k = elim (Bool-cases (before e y)) [
  | inl b ↦ rw b h
  | inr b ↦ rw b k
]

insert_in_order-IsSorted :
    (e : Event) (es : List Event) → IsSorted es → IsSorted (insert_in_order e es)
unfolding insert_in_order
insert_in_order-IsSorted e [] h = (tt, tt)
insert_in_order-IsSorted e (x ∷ xs) h = elim (Bool-cases (before e x)) [
  | inl b ↦ rw b (before-InOrder e x b, h)
  | inr b ↦ rw b (
    starts-insert_in_order x e xs (not_before-InOrder x e b) h.0,
    insert_in_order-IsSorted e xs h.1,
  )
]

sort_events-IsSorted : (es : List Event) → IsSorted (sort_events es)
unfolding sort_events
sort_events-IsSorted [] = tt
sort_events-IsSorted (e ∷ es) =
    insert_in_order-IsSorted e (sort_events es) (sort_events-IsSorted es)

-- A rebuild replays the events of a relationship sorted by creation time, then sender, then sequence
-- number, then id (the texts by code points), each as often as the log joins it with a payload: a test of events passes as many
-- of the replayed as of the joined.
pub relationship_events-IsSorted :
    (rel : String) (db : Db) (p : Event → Bool)
    → IsSorted (relationship_events rel db)
      × (count p (relationship_events rel db) ≡ count p (joined rel db db.events))
unfolding relationship_events
relationship_events-IsSorted rel db p =
    (sort_events-IsSorted (joined rel db db.events), count-sort_events p (joined rel db db.events))
