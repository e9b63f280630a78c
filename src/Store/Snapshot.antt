-- ===== src/Store/Snapshot.antt =====
-- DumpAll and LoadAll of pkg/store/store.go: a snapshot, written and loaded.
use mathlib.Core.Path.{subst}
use libp2p_kv_raft.Base.{
  ℕ, zero, suc, ◌%◌, ◌^◌, ◌≤◌, ◌<◌, ◌≡◌, refl, sym, ap, ◌∙◌, Option, none, some, [], ◌∷◌, ◌++◌, All,
  arith, Bytes, length, equal, equal_iff, put_uint32, get_uint32_lem, length-append, take-append,
  drop-append, append_assoc, inl, inr, Bool-cases,
}
use libp2p_kv_raft.Outcome.{ok, ◌>>=◌ as bind}
use libp2p_kv_raft.Exec.{continue}
use libp2p_kv_raft.Store.{read_full, uint32_of, read_field, field, dump_rows, dump_all}
use libp2p_kv_raft.Store.Rows.{Kv, Table, IsSorted, find, put}
use libp2p_kv_raft.Store.Rows.Laws.{find-put, put-IsSorted, equal_comm}
use libp2p_kv_raft.Store.Rows.Listing.{All-find}
use libp2p_kv_raft.Store.Rows.Selection.{table_ext}
use libp2p_kv_raft.Store.Writes.{load_loop, load_body, load_all, insert_row, executed}
use libp2p_kv_raft.Store.Sqlite.{Database, Reply, returned, IsReliable, HasNoKey, HasDistinctKeys}
use libp2p_kv_raft.Store.Effects.{Runs, Runs-with_tx}

read_full_lem : (b rest : Bytes) → read_full (length b) (b ++ rest) ≡ ok (b, rest)
unfolding read_full
read_full_lem [] rest = refl
read_full_lem (x ∷ b) rest =
    ground (arith, length-append b rest, take-append b rest, drop-append b rest)

read_length :
    (n : ℕ) (rest : Bytes) → n < 2 ^ 32 → read_field (put_uint32 n ++ rest) ≡ read_full n rest
unfolding read_field read_full uint32_of put_uint32
read_length n rest h = ground (arith, get_uint32_lem n h)

-- A field that fits in 32 bits is read back, with what follows it.
pub read_field-field :
    (b rest : Bytes) → length b < 2 ^ 32 → read_field (field b ++ rest) ≡ ok (b, rest)
unfolding field
read_field-field b rest h =
    let e : length b % 2 ^ 32 ≡ length b = omega arith in
    rw (e, append_assoc, read_length (length b) (b ++ rest) h) (read_full_lem b rest)

length-field : (b : Bytes) → 4 ≤ length (field b)
unfolding field put_uint32
length-field b = omega arith

-- The key and the value fit in the 32 bits of a length each.
abbrev pub IsShort : Kv → Type 0
IsShort r = (length r.key < 2 ^ 32) × (length r.value < 2 ^ 32)

-- The rows of a table put into another one by one.
abbrev put_all : Table → Table → Table
put_all [] t = t
put_all (r ∷ u) t = put_all u (put r.key r.value t)

put_all-IsSorted : (u t : Table) → IsSorted t → IsSorted (put_all u t)
put_all-IsSorted [] t h = h
put_all-IsSorted (r ∷ u) t h = put_all-IsSorted u _ (put-IsSorted r.key r.value t h)

abbrev first_of : Option Bytes → Option Bytes → Option Bytes
first_of (some v) o = some v
first_of none o = o

find-put_all :
    (k : Bytes) (u t : Table)
    → HasDistinctKeys u
    → find k (put_all u t) ≡ first_of (find k u) (find k t)
unfolding find
find-put_all k [] t h = refl
find-put_all k (r ∷ u) t h =
    find-put_all k u (put r.key r.value t) h.1
    ∙ ground (arith, find-put k r.key r.value t, equal_iff k r.key)

-- No row of the table is among other rows.
abbrev IsFresh : Table → Table → Type 0
IsFresh u t = All (λ r. HasNoKey r.key t) u

put-IsFresh :
    (u : Table) (k v : Bytes) (t : Table) → HasNoKey k u → IsFresh u t → IsFresh u (put k v t)
unfolding find
put-IsFresh [] k v t n f = tt
put-IsFresh (r ∷ u) k v t n f = (
  ground (arith, find-put r.key k v t, equal_comm k r.key),
  put-IsFresh u k v t (ground arith) f.1,
)

IsFresh-empty : (u : Table) → IsFresh u []
unfolding find
IsFresh-empty [] = tt
IsFresh-empty (r ∷ u) = (refl, IsFresh-empty u)

find-IsShort :
    (k v : Bytes) (t : Table)
    → All IsShort t
    → find k t ≡ some v
    → (length k < 2 ^ 32) × (length v < 2 ^ 32)
unfolding find
find-IsShort k v [] h e = (absurd (ground arith), absurd (ground arith))
find-IsShort k v (r ∷ t) h e = elim (Bool-cases (equal k r.key)) [
  | inl q ↦ (ground (arith, equal_iff k r.key), ground arith)
  | inr q ↦ find-IsShort k v t h.1 (ground arith)
]

module _ (D : Database) (R : IsReliable D) where
  open D use {Db, rows}

  insert_row_runs :
      (k v : Bytes) (s : Db)
      → HasNoKey k (rows s)
      → (s' : Db) × (insert_row D k v s ≡ (ok tt, s')) × (rows s' ≡ put k v (rows s))
  insert_row_runs k v s h =
      let (s', e) = R.insert_row_runs s k v h in
      (s', ap (λ (r : Reply Db). executed s r) e, D.insert_row_lem s k v s' e)

  load_loop_step :
      (fuel : ℕ) (bytes r' r'' k v : Bytes) (s s1 : Db)
      → 1 ≤ length bytes
      → read_field bytes ≡ ok (k, r')
      → read_field r' ≡ ok (v, r'')
      → insert_row D k v s ≡ (ok tt, s1)
      → load_loop D (suc fuel) bytes s ≡ load_loop D fuel r'' s1
  unfolding load_loop
  load_loop_step fuel [] r' r'' k v s s1 n e f g = absurd (omega arith)
  load_loop_step fuel (x ∷ bytes) r' r'' k v s s1 n e f g = rw (e, f) (rw g refl)

  abbrev Loaded : ℕ → Table → Db → Type 0
  Loaded fuel u s =
      (s' : Db) × (load_loop D fuel (dump_rows u) s ≡ (ok tt, s')) × (rows s' ≡ put_all u (rows s))

  load_loop_nil : (fuel : ℕ) (s : Db) → load_loop D fuel [] s ≡ (ok tt, s)
  unfolding load_loop
  load_loop_nil fuel s = refl

  load_loop_runs :
      (u : Table) (fuel : ℕ) (s : Db)
      → HasDistinctKeys u
      → All IsShort u
      → IsFresh u (rows s)
      → length (dump_rows u) ≤ fuel
      → Loaded fuel u s
  unfolding dump_rows
  load_loop_runs [] fuel s d h f n = (s, load_loop_nil fuel s, refl)
  load_loop_runs (r ∷ u) zero s d h f n = absurd (
      omega (arith, length-field r.key, length-append (field r.key) (field r.value ++ dump_rows u)))
  load_loop_runs (r ∷ u) (suc fuel) s d h f n =
      let (s1, p, q) = insert_row_runs r.key r.value s f.0 in
      let room : (1 ≤ length (field r.key ++ (field r.value ++ dump_rows u)))
          × (length (dump_rows u) ≤ fuel) =
        (
          omega (
            arith,
            length-field r.key,
            length-append (field r.key) (field r.value ++ dump_rows u),
          ),
          omega (
            arith,
            n,
            length-field r.key,
            length-append (field r.key) (field r.value ++ dump_rows u),
            length-append (field r.value) (dump_rows u),
          ),
        ) in
      let fresh : IsFresh u (rows s1) =
        subst (IsFresh u) (sym q) (put-IsFresh u r.key r.value (rows s) d.0 f.1) in
      let (s', p2, q2) = load_loop_runs u fuel s1 d.1 h.1 fresh room.1 in
      (
        s',
        load_loop_step fuel _ (field r.value ++ dump_rows u) (dump_rows u) r.key r.value s s1 room.0
              (read_field-field r.key _ h.0.0) (read_field-field r.value _ h.0.1) p
            ∙ p2,
        q2 ∙ ap (put_all u) q,
      )

  put_all_lem :
      (u t : Table)
      → HasDistinctKeys u
      → IsSorted t
      → ((k : Bytes) → find k u ≡ find k t)
      → put_all u [] ≡ t
  unfolding find
  put_all_lem u t d h e =
      table_ext (put_all u []) t (put_all-IsSorted u [] tt) h
        (λ k. find-put_all k u [] d ∙ ground (arith, e k))

  Runs-load_body :
      (u : Table)
      → HasDistinctKeys u
      → All IsShort u
      → Runs D (load_body D (dump_rows u)) (λ _. put_all u [])
  Runs-load_body u d h = record {
    outcome = λ s.
        let (s1, p) = R.delete_all_runs s in
        let e : rows s1 ≡ [] = D.delete_all_lem s s1 p in
        let (s', p2, q2) =
          load_loop_runs u (length (dump_rows u)) s1 d h
            (subst (IsFresh u) (sym e) (IsFresh-empty u)) (omega arith) in
        (
          s',
          ap
                (λ (r : Reply Db).
                  continue (executed s r) (λ _. load_loop D (length (dump_rows u)) (dump_rows u)))
                p
              ∙ p2,
          q2 ∙ ap (put_all u) e,
        );
  }

  -- On a reliable database whose keys and values each fit in 32 bits, a snapshot is written, in
  -- whatever order the rows come; and loading it, into any state, succeeds and leaves the rows of
  -- the state that it was taken of.
  pub load_all-dump_all :
      (s s2 : Db)
      → All IsShort (rows s)
      → (bytes : Bytes) × (dump_all D s ≡ ok bytes)
        × ((s' : Db) × (load_all D bytes s2 ≡ (ok tt, s')) × (rows s' ≡ rows s))
  unfolding dump_all load_all
  load_all-dump_all s s2 h =
      let (u, e) = R.select_all_runs s in
      let d : HasDistinctKeys u = D.select_all_distinct s u e in
      let short : All IsShort u =
        All-find (λ k v. (length k < 2 ^ 32) × (length v < 2 ^ 32)) u d
          (λ k v p. find-IsShort k v (rows s) h (sym (D.select_all_lem s u k e) ∙ p)) in
      let (s', p, q) = (Runs-with_tx D R (Runs-load_body u d short)).outcome s2 in
      (
        dump_rows u,
        ap (λ (r : Reply Table). bind (returned r) (λ t. ok (dump_rows t))) e,
        (s', p, q ∙ put_all_lem u (rows s) d (D.rows_sorted s) (λ k. D.select_all_lem s u k e)),
      )
