-- ===== src/Examples/Chunks.antt =====
-- A ring that gives one byte at a read.
use libp2p_kv_raft.Base.{
  ℕ, zero, suc, ◌≤◌, ◌<◌, ◌≡◌, refl, arith, Option, none, some, List, [], ◌∷◌, ◌++◌, Bytes, length,
}
use libp2p_kv_raft.Outcome.{Error, ok, eof}
use libp2p_kv_raft.Exec.{◌>>◌}
use libp2p_kv_raft.Chandata.Stream.{Ring, IsReliable}
use libp2p_kv_raft.Chandata.{write_chunks, read_chunks}
use libp2p_kv_raft.Chandata.RoundTrip.{Reads, chunks_in_order}

abbrev read_byte : ℕ → Bytes → (Bytes × Option Error) × Bytes
read_byte zero s = (([], none), s)
read_byte (suc n) [] = (([], some eof), [])
read_byte (suc n) (b ∷ s) = ((b ∷ [], none), s)

read_byte_lem :
    (n : ℕ) (s : Bytes)
    → (s ≡ (read_byte n s).0.0 ++ (read_byte n s).1) × (length (read_byte n s).0.0 ≤ n)
read_byte_lem zero s = (refl, omega arith)
read_byte_lem (suc n) [] = (refl, omega arith)
read_byte_lem (suc n) (b ∷ s) = (refl, omega arith)

read_byte_some :
    (n : ℕ) (s : Bytes) → 0 < n → (read_byte n s).0.1 ≡ none → 0 < length (read_byte n s).0.0
read_byte_some zero s h e = absurd (omega arith)
read_byte_some (suc n) [] h e = absurd (ground arith)
read_byte_some (suc n) (b ∷ s) h e = omega arith

read_byte_runs : (n : ℕ) (s : Bytes) → n ≤ length s → (read_byte n s).0.1 ≡ none
read_byte_runs zero s h = refl
read_byte_runs (suc n) [] h = absurd (omega arith)
read_byte_runs (suc n) (b ∷ s) h = refl

abbrev bytewise : Ring
bytewise = record {
  State = Bytes;
  pending = λ s. s;
  write = λ b s. (ok tt, s ++ b);
  read = read_byte;
  write_lem = λ b s s' e. ground arith;
  read_lem = read_byte_lem;
  read_some = read_byte_some;
}

bytewise_is_reliable : IsReliable bytewise
bytewise_is_reliable = record { writes = λ b s. (s ++ b, refl); reads = read_byte_runs }

-- Three chunks, one of them empty
abbrev three_chunks : List (ℕ × Bytes)
three_chunks = (1, 10 ∷ 20 ∷ 30 ∷ []) ∷ (2, []) ∷ (1, 40 ∷ []) ∷ []

chunks_in_order_example :
    Reads bytewise three_chunks []
      ((write_chunks bytewise three_chunks >> read_chunks bytewise 3) [])
chunks_in_order_example =
    chunks_in_order bytewise bytewise_is_reliable three_chunks []
      (omega arith, (omega arith, (omega arith, tt))) refl
