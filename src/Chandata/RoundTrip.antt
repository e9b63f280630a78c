-- ===== src/Chandata/RoundTrip.antt =====
-- pkg/chandata/chandata.go: what is written to a ring is what is read.
use mathlib.Core.Path.{subst}
use libp2p_kv_raft.Base.{
  ℕ, zero, suc, ◌+◌, ◌-◌, ◌≤◌, ◌<◌, ◌≡◌, refl, sym, ◌∙◌, ap, arith, true, false, ◌==◌, Option, none,
  some, List, [], ◌∷◌, ◌++◌, Bytes, length, All, leb, put_uint32, get_uint32_lem, ltb,
  length-append, append-nil, append_assoc,
}
use libp2p_kv_raft.Exec.{Exec, continue, ◌>>◌}
use libp2p_kv_raft.Outcome.{Error, Result, ok}
use libp2p_kv_raft.Chandata.Stream.{Ring, IsReliable}
use libp2p_kv_raft.Chandata.{
  max_chunk_size, after_read, read_full, read_full_context, read_payload, read_chunk, write_payload,
  write_chunk, write_chunks, read_chunks,
}

nonzero : (n : ℕ) → (suc n == 0) ≡ false
nonzero n = ground arith

not_large : (n : ℕ) → n ≤ max_chunk_size → ltb max_chunk_size n ≡ false
not_large n h = ground arith

small_enough : (n : ℕ) → n ≤ max_chunk_size → leb n max_chunk_size ≡ true
small_enough n h = ground arith

-- Two ways to cut a byte string, the first cut before the second.
cut_earlier :
    (b y x rest : Bytes)
    → b ++ y ≡ x ++ rest
    → length b ≤ length x
    → (z : Bytes) × (x ≡ b ++ z) × (y ≡ z ++ rest)
cut_earlier [] y x rest e h = (x, refl, e)
cut_earlier (c ∷ b) y [] rest e h = absurd (omega arith)
cut_earlier (c ∷ b) y (d ∷ x) rest e h =
    let (z, f, g) = cut_earlier b y x rest (ground arith) (omega arith) in (z, ground arith, g)

module _ (R : Ring) where
  open R use {State, pending, write, read}

  after_read_lem :
      (left : ℕ) (buf : Bytes) (go_on : ℕ → Bytes → Exec State Bytes)
      (r : (Bytes × Option Error) × State)
      → r.0.1 ≡ none
      → after_read R left buf go_on r ≡ go_on (left - length r.0.0) (buf ++ r.0.0) r.1
  after_read_lem left buf go_on ((part, none), s) e = refl
  after_read_lem left buf go_on ((part, some f), s) e = absurd (ground arith)

  -- A read that leaves the stream at `rest`, with the value that was written.
  abbrev pub Reads : {A : Type 0} → A → Bytes → Result A × State → Type 0
  Reads a rest r = (s : State) × (r ≡ (ok a, s)) × (pending s ≡ rest)

  module _ (reliable : IsReliable R) where
    -- Every round reads a byte at least, so that the bytes to go bound the rounds.
    read_full_lem :
        (fuel : ℕ) (buf x rest : Bytes) (s : State)
        → length x < fuel
        → pending s ≡ x ++ rest
        → Reads (buf ++ x) rest (read_full R fuel (length x) buf s)
    unfolding read_full
    read_full_lem zero buf x rest s h e = absurd (omega arith)
    read_full_lem (suc fuel) buf [] rest s h e = (s, rw (append-nil buf) refl, e)
    read_full_lem (suc fuel) buf (d ∷ x) rest s h e =
        let n = suc (length x) in
        let whole = R.read_lem n s in
        let fine = reliable.reads n s (omega (arith, ap length e, length-append (d ∷ x) rest)) in
        let some_byte = R.read_some n s (omega arith) fine in
        let (z, f, g) =
          cut_earlier (read n s).0.0 (pending (read n s).1) (d ∷ x) rest (sym whole.0 ∙ e)
            whole.1 in
        let sizes : n ≡ length (read n s).0.0 + length z =
          ap length f ∙ length-append (read n s).0.0 z in
        let (s', done, left) =
          read_full_lem fuel (buf ++ (read n s).0.0) z rest (read n s).1 (omega arith) g in
        (
          s',
          rw (nonzero (length x), read_full)
              (after_read_lem n buf (read_full R fuel) (read n s) fine
                ∙ (ap (λ m. read_full R fuel m (buf ++ (read n s).0.0) (read n s).1) (omega arith)
                    ∙ (done
                        ∙ ap (λ y. (ok y, s'))
                            (append_assoc buf (read n s).0.0 z ∙ ap (λ y. buf ++ y) (sym f))))),
          left,
        )

    read_full_context_lem :
        (x rest : Bytes) (s : State)
        → pending s ≡ x ++ rest
        → Reads x rest (read_full_context R (length x) s)
    read_full_context_lem x rest s e = read_full_lem (suc (length x)) [] x rest s (omega arith) e

    continued :
        {A B : Type 0} {a : A} {b : B} {rest rest' : Bytes} (r : Result A × State)
        (f : A → Exec State B)
        → Reads a rest r
        → ((s : State) → pending s ≡ rest → Reads b rest' (f a s))
        → Reads b rest' (continue r f)
    continued {A} {B} {a} {b} {rest} {rest'} r f (s, e, left) next =
        subst (λ q. Reads b rest' (continue q f)) (sym e) (next s left)

    -- A chunk as it stands in the ring.
    abbrev framed : ℕ × Bytes → Bytes
    framed (purpose, chunk) = (purpose ∷ put_uint32 (length chunk)) ++ chunk

    abbrev Fits : ℕ × Bytes → Type 0
    Fits c = length c.1 ≤ max_chunk_size

    read_payload_lem :
        (purpose : ℕ) (chunk rest : Bytes) (s : State)
        → Fits (purpose, chunk)
        → pending s ≡ chunk ++ rest
        → Reads (purpose, chunk) rest (read_payload R purpose (length chunk) s)
    read_payload_lem purpose [] rest s fits e = (s, refl, e)
    read_payload_lem purpose (b ∷ chunk) rest s fits e =
        rw (not_large (suc (length chunk)) fits, nonzero (length chunk))
          (continued _ _ (read_full_context_lem (b ∷ chunk) rest s e) (λ s' left. (s', refl, left)))

    read_chunk_lem :
        (c : ℕ × Bytes) (rest : Bytes) (s : State)
        → Fits c
        → pending s ≡ framed c ++ rest
        → Reads c rest (read_chunk R s)
    unfolding read_chunk put_uint32
    read_chunk_lem (purpose, chunk) rest s fits e =
        continued _ _
          (read_full_context_lem (purpose ∷ put_uint32 (length chunk)) (chunk ++ rest) s e)
          (λ s' left.
            rw (get_uint32_lem (length chunk) (omega arith))
              (read_payload_lem purpose chunk rest s' fits left))

    -- A write that appends to the stream
    abbrev Writes : Bytes → State → Result (Unit {0}) × State → Type 0
    Writes x s r = Reads tt (pending s ++ x) r

    write_payload_lem : (chunk : Bytes) (s : State) → Writes chunk s (write_payload R chunk s)
    write_payload_lem [] s = (s, refl, sym (append-nil (pending s)))
    write_payload_lem (b ∷ chunk) s =
        let (s', e) = reliable.writes (b ∷ chunk) s in
        (s', rw e refl, R.write_lem (b ∷ chunk) s s' e)

    write_chunk_lem :
        (c : ℕ × Bytes) (s : State) → Fits c → Writes (framed c) s (write_chunk R c.0 c.1 s)
    unfolding write_chunk put_uint32
    write_chunk_lem (purpose, chunk) s fits =
        let header = purpose ∷ put_uint32 (length chunk) in
        let (s1, e) = reliable.writes header s in
        let (s2, f, left) = write_payload_lem chunk s1 in
        (
          s2,
          rw (small_enough (length chunk) fits, e) f,
          left
              ∙ (ap (λ x. x ++ chunk) (R.write_lem header s s1 e)
                  ∙ append_assoc (pending s) header chunk),
        )

    abbrev frames : List (ℕ × Bytes) → Bytes
    frames [] = []
    frames (c ∷ rest) = framed c ++ frames rest

    write_chunks_lem :
        (list : List (ℕ × Bytes)) (s : State)
        → All Fits list
        → Writes (frames list) s (write_chunks R list s)
    write_chunks_lem [] s fits = (s, refl, sym (append-nil (pending s)))
    write_chunks_lem (c ∷ rest) s fits = continued _ _ (write_chunk_lem c s fits.0) (λ s' left.
        let (s2, e, left2) = write_chunks_lem rest s' fits.1 in
        (
          s2,
          e,
          left2
              ∙ (ap (λ x. x ++ frames rest) left
                  ∙ append_assoc (pending s) (framed c) (frames rest)),
        ))

    read_chunks_lem :
        (list : List (ℕ × Bytes)) (rest : Bytes) (s : State)
        → All Fits list
        → pending s ≡ frames list ++ rest
        → Reads list rest (read_chunks R (length list) s)
    read_chunks_lem [] rest s fits e = (s, refl, e)
    read_chunks_lem (c ∷ list) rest s fits e =
        continued _ _
          (read_chunk_lem c (frames list ++ rest) s fits.0
            (e ∙ append_assoc (framed c) (frames list) rest))
          (λ s' left.
            continued _ _ (read_chunks_lem list rest s' fits.1 left)
              (λ s2 left2. (s2, refl, left2)))

-- Through a ring that does not fail and is empty at first, chunks are read as they were written, in
-- order and with their purposes, however few bytes a read returns, and the ring is empty again, if
-- no chunk is larger than WriteChunk allows.
pub chunks_in_order :
    (R : Ring)
    → IsReliable R
    → (list : List (ℕ × Bytes)) (s : R.State)
    → All (λ (c : ℕ × Bytes). length c.1 ≤ max_chunk_size) list
    → R.pending s ≡ []
    → Reads R list [] ((write_chunks R list >> read_chunks R (length list)) s)
chunks_in_order R reliable list s fits empty =
    continued R reliable _ _ (write_chunks_lem R reliable list s fits) (λ s' left.
      read_chunks_lem R reliable list [] s' fits (
        left
        ∙ (ap (λ x. x ++ frames R reliable list) empty
            ∙ sym (append-nil (frames R reliable list)))))
