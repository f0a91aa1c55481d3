-- ===== src/TableReceiver/Laws.antt =====
-- What the table knows after updates, and what a sender gets from it.
use artdaq.Prelude.Ord.{nat_ord}
use artdaq.Prelude.{
  ◌==◌, if◌then◌else◌, ℕ, ◌+◌, ◌^◌, ◌<◌, ◌≡◌, Option, none, some, [], ◌∷◌, ==_iff, Bool-cases,
  if-lem, length, refl, sym, ap, ◌∙◌, inl, inr, Bool, true, false, not, List, arith, ltb,
}
use artdaq.Prelude.Int.{ℤ}
use artdaq.Routing.Packet.{RoutingPacket, RoutingPacketEntry}
use mathlib.Core.Path.{subst}
use artdaq.Prelude.Words.{u64, sub64}
use artdaq.Map.{Assoc, lookup, contains}
use artdaq.Map.Laws.{lookup-insert}
use artdaq.TableReceiver.{
  with_entry, with_entries, last_sequence, receive_entries, receive_table_update, receive_all,
  wait_for_entry, TableReceiver, TableUpdate, awaited,
}

-- The entries have sequence IDs in turn from `first`, without wrap-around.
abbrev pub AreInTurn : ℕ → RoutingPacket → Type 0
AreInTurn first [] = Unit
AreInTurn first (e ∷ rest) =
    (e.sequence_id ≡ first) × (first + 1 < 2 ^ 64) × AreInTurn (first + 1) rest

-- The rank that the entries give for a sequence ID.
abbrev pub rank_in : ℕ → RoutingPacket → Option ℤ
rank_in seq [] = none
rank_in seq (e ∷ rest) = if e.sequence_id == seq then some e.destination_rank else rank_in seq rest

-- The first of two answers that there is.
abbrev pub or_else : Option ℤ → Option ℤ → Option ℤ
or_else none other = other
or_else (some r) other = some r

not_contained : (k : ℕ) (m : Assoc ℕ ℤ) → contains k m ≡ false → lookup k m ≡ none
unfolding contains lookup
not_contained k [] h = refl
not_contained k ((j, v) ∷ m) h = ground (arith, not_contained k m)

abbrev has_answer : Option ℤ → Bool
has_answer none = false
has_answer (some r) = true

contains-lookup : (k : ℕ) (m : Assoc ℕ ℤ) → contains k m ≡ has_answer (lookup k m)
unfolding contains lookup
contains-lookup k [] = refl
contains-lookup k ((j, v) ∷ m) = ground (arith, contains-lookup k m)

contained : (k : ℕ) (m : Assoc ℕ ℤ) → contains k m ≡ true → (r : ℤ) × (lookup k m ≡ some r)
contained k m h = go (lookup k m) refl
  where
    go : (o : Option ℤ) → lookup k m ≡ o → (r : ℤ) × (lookup k m ≡ some r)
    go none e = cc (contains-lookup k m, ap has_answer e, h)
    go (some r) e = (r, e)

or_else-none : (o : Option ℤ) → or_else o none ≡ o
or_else-none none = refl
or_else-none (some r) = refl

-- A route that is known stays as it is.
with_entry-keeps :
    (low : ℕ) (e : RoutingPacketEntry) (table : Assoc ℕ ℤ) (seq : ℕ) (rank : ℤ)
    → lookup seq table ≡ some rank
    → lookup seq (with_entry low e table) ≡ some rank
unfolding with_entry
with_entry-keeps low e table seq rank h = ground (
  arith,
  h,
  lookup-insert seq e.sequence_id e.destination_rank table,
  not_contained e.sequence_id table,
  ==_iff e.sequence_id seq,
)

with_entries-keeps :
    (low expected : ℕ) (rows : RoutingPacket) (table : Assoc ℕ ℤ) (seq : ℕ) (rank : ℤ)
    → lookup seq table ≡ some rank
    → lookup seq (with_entries low expected rows table) ≡ some rank
unfolding with_entries
with_entries-keeps low expected [] table seq rank h = h
with_entries-keeps low expected (e ∷ rest) table seq rank h =
    if-lem (λ t. lookup seq t ≡ some rank) (expected == e.sequence_id) _ _
      (with_entries-keeps low (u64 (expected + 1)) rest (with_entry low e table) seq rank
        (with_entry-keeps low e table seq rank h))
      h

receive_entries-keeps :
    (rows : RoutingPacket) (t : TableReceiver) (seq : ℕ) (rank : ℤ)
    → lookup seq t.routing_table ≡ some rank
    → lookup seq (receive_entries rows t).0.routing_table ≡ some rank
unfolding receive_entries
receive_entries-keeps [] t seq rank h = h
receive_entries-keeps (e ∷ rest) t seq rank h =
    let last = last_sequence e.sequence_id rest in
    if-lem (λ (r : TableReceiver × Bool). lookup seq r.0.routing_table ≡ some rank)
      (not (u64 (sub64 (e.sequence_id + length (e ∷ rest)) 1) == last)) _ _ h
      (if-lem (λ (r : TableReceiver × Bool). lookup seq r.0.routing_table ≡ some rank)
        (contains last t.routing_table) _ _ h
        (with_entries-keeps t.routing_table_last e.sequence_id (e ∷ rest) t.routing_table seq rank
          h))

receive_all-keeps :
    (us : List TableUpdate) (t : TableReceiver) (seq : ℕ) (rank : ℤ)
    → lookup seq t.routing_table ≡ some rank
    → lookup seq (receive_all us t).routing_table ≡ some rank
unfolding receive_all receive_table_update
receive_all-keeps [] t seq rank h = h
receive_all-keeps (u ∷ us) t seq rank h = receive_all-keeps us _ seq rank (
    if-lem (λ (r : TableReceiver × Bool). lookup seq r.0.routing_table ≡ some rank) u.has_magic _ _
      (receive_entries-keeps u.entries t seq rank h) h)

none_below : (n : ℕ) → ltb n 0 ≡ false
none_below n = ground arith

with_entry-lookup :
    (e : RoutingPacketEntry) (table : Assoc ℕ ℤ) (seq : ℕ)
    → lookup seq (with_entry 0 e table)
      ≡ or_else (lookup seq table) (if e.sequence_id == seq then some e.destination_rank else none)
unfolding with_entry
with_entry-lookup e table seq = elim (Bool-cases (contains e.sequence_id table)) [
  | inl old ↦
      let known = contained e.sequence_id table old in
      rw old (elim (Bool-cases (e.sequence_id == seq)) [
        | inl same ↦ ground (arith, ==_iff e.sequence_id seq, known.1)
        | inr other ↦ rw other (sym (or_else-none (lookup seq table)))
      ])
  | inr new ↦
      rw (new, none_below e.sequence_id)
        (rw (lookup-insert seq e.sequence_id e.destination_rank table)
          (elim (Bool-cases (e.sequence_id == seq)) [
            | inl same ↦
                ground (arith, ==_iff e.sequence_id seq, not_contained e.sequence_id table new)
            | inr other ↦ rw other (sym (or_else-none (lookup seq table)))
          ]))
]

or_else_assoc : (a b c : Option ℤ) → or_else (or_else a b) c ≡ or_else a (or_else b c)
or_else_assoc none b c = refl
or_else_assoc (some r) b c = refl

rank_in-step :
    (seq : ℕ) (e : RoutingPacketEntry) (rest : RoutingPacket)
    → or_else (if e.sequence_id == seq then some e.destination_rank else none) (rank_in seq rest)
      ≡ rank_in seq (e ∷ rest)
rank_in-step seq e rest = ground arith

with_entries-lookup :
    (first : ℕ) (rows : RoutingPacket) (table : Assoc ℕ ℤ) (seq : ℕ)
    → AreInTurn first rows
    → lookup seq (with_entries 0 first rows table) ≡ or_else (lookup seq table) (rank_in seq rows)
unfolding with_entries
with_entries-lookup first [] table seq h = sym (or_else-none (lookup seq table))
with_entries-lookup first (e ∷ rest) table seq h =
    let next : u64 (first + 1) ≡ first + 1 = omega arith in
    let turn : (first == e.sequence_id) ≡ true = ground (arith, h.0, ==_iff first e.sequence_id) in
    rw (turn, next)
      (with_entries-lookup (first + 1) rest (with_entry 0 e table) seq h.2
        ∙ ap (λ o. or_else o (rank_in seq rest)) (with_entry-lookup e table seq)
        ∙ or_else_assoc (lookup seq table) _ (rank_in seq rest)
        ∙ ap (or_else (lookup seq table)) (rank_in-step seq e rest))

last_sequence-in_turn :
    (e : RoutingPacketEntry) (rest : RoutingPacket)
    → AreInTurn (e.sequence_id + 1) rest
    → (last_sequence e.sequence_id rest ≡ e.sequence_id + length rest)
unfolding last_sequence
last_sequence-in_turn e [] h = omega arith
last_sequence-in_turn e (f ∷ rest) h =
    omega
      (arith, h.0, last_sequence-in_turn f rest (subst (λ k. AreInTurn (k + 1) rest) (sym h.0) h.2))

in_turn-bounded :
    (first : ℕ) (rows : RoutingPacket)
    → AreInTurn first rows
    → first < 2 ^ 64
    → first + length rows < 2 ^ 64
in_turn-bounded first [] h l = omega arith
in_turn-bounded first (e ∷ rest) h l = omega (arith, in_turn-bounded (first + 1) rest h.2 h.1)

-- With `routing_table_last_` 0, as the constructor leaves it, an update whose entries are in turn, and
-- whose last entry is new, adds exactly the routes of its entries: the table answers each sequence ID
-- as before, and where it had no answer as the update says.
pub receive_entries-lookup :
    (e : RoutingPacketEntry) (rest : RoutingPacket) (t : TableReceiver) (seq : ℕ)
    → t.routing_table_last ≡ 0
    → AreInTurn e.sequence_id (e ∷ rest)
    → contains (last_sequence e.sequence_id rest) t.routing_table ≡ false
    → lookup seq
        (receive_table_update (record { has_magic = true; entries = e ∷ rest }) t).0.routing_table
      ≡ or_else (lookup seq t.routing_table) (rank_in seq (e ∷ rest))
unfolding receive_table_update receive_entries
receive_entries-lookup e rest t seq low h new =
    let last = last_sequence e.sequence_id rest in
    let at = last_sequence-in_turn e rest h.2 in
    let bound = in_turn-bounded (e.sequence_id + 1) rest h.2 h.1 in
    let fits : (u64 (sub64 (e.sequence_id + length (e ∷ rest)) 1) == last) ≡ true =
      ground (arith, at, bound) in
    rw (fits, new, low) (with_entries-lookup e.sequence_id (e ∷ rest) t.routing_table seq h)

awaited-lookup :
    (seq : ℕ) (further : TableReceiver × Option ℤ) (t : TableReceiver) (o : Option ℤ) (rank : ℤ)
    → lookup seq t.routing_table ≡ o
    → (further.1 ≡ some rank → lookup seq further.0.routing_table ≡ some rank)
    → (awaited further t o).1 ≡ some rank
    → lookup seq (awaited further t o).0.routing_table ≡ some rank
unfolding awaited
awaited-lookup seq further t none rank e k h = k h
awaited-lookup seq further t (some r) rank e k h = e ∙ h

wait_for_entry-lookup :
    (seq : ℕ) (rounds : List (List TableUpdate)) (t : TableReceiver) (rank : ℤ)
    → (wait_for_entry seq rounds t).1 ≡ some rank
    → lookup seq (wait_for_entry seq rounds t).0.routing_table ≡ some rank
unfolding wait_for_entry
wait_for_entry-lookup seq [] t rank h = cc
wait_for_entry-lookup seq (arrived ∷ rounds) t rank h =
    let now = receive_all arrived t in
    awaited-lookup seq (wait_for_entry seq rounds now) now (lookup seq now.routing_table) rank refl
      (wait_for_entry-lookup seq rounds now rank) h

wait_known :
    (seq : ℕ) (arrived : List TableUpdate) (rounds : List (List TableUpdate)) (t : TableReceiver)
    (rank : ℤ)
    → lookup seq t.routing_table ≡ some rank
    → (wait_for_entry seq (arrived ∷ rounds) t).1 ≡ some rank
unfolding wait_for_entry awaited
wait_known seq arrived rounds t rank h = rw (receive_all-keeps arrived t seq rank h) refl

-- A route that a sender got stays: after any updates that come then, the next call for the sequence ID
-- that lasts for a round gets the same rank, whatever comes meanwhile.
pub get_entry_again :
    (seq : ℕ) (rounds : List (List TableUpdate)) (later arrived : List TableUpdate)
    (more : List (List TableUpdate)) (t : TableReceiver) (rank : ℤ)
    → (wait_for_entry seq rounds t).1 ≡ some rank
    → (wait_for_entry seq (arrived ∷ more) (receive_all later (wait_for_entry seq rounds t).0)).1
      ≡ some rank
get_entry_again seq rounds later arrived more t rank h =
    wait_known seq arrived more _ rank
      (receive_all-keeps later _ seq rank (wait_for_entry-lookup seq rounds t rank h))
