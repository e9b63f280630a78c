-- ===== src/Logrecord/Bounds.antt =====
-- pkg/logrecord/key.go: the bounds of a scan against the keys of the records.
use libp2p_kv_raft.Base.{
  ℕ, zero, suc, ◌^◌, ◌≤◌, ◌≡◌, ◌&&◌, not, refl, ◌∙◌, Bool, false, [], ◌∷◌, ◌++◌, Bytes, length,
  ◌==◌, if◌then◌else◌, arith, ◌<◌, ltb, leb, put_uint16, put_uint64, append_assoc, append-nil,
  IsBytes, replicate, equal, equal_iff, blob_lt, blob_lt-same_length, blob_lt-put_uint16,
  blob_lt-put_uint64, blob_lt_total,
}
use libp2p_kv_raft.Outcome.{ok}
use libp2p_kv_raft.Store.Rows.{in_closed}
use libp2p_kv_raft.Store.Rows.Laws.{equal_comm}
use libp2p_kv_raft.Logrecord.{pos, build_key, scan_bounds, kind_unit_prefix}

-- How two fields of a key compare where they differ: the shorter first, then by their bytes.
abbrev before : Bytes → Bytes → Bool
before a b = if length a == length b then blob_lt a b else ltb (length a) (length b)

before_total : (a b : Bytes) → equal a b ≡ false → (not (before a b) && not (before b a)) ≡ false
before_total a b h = ground (arith, blob_lt_total a b, equal_iff a b)

blob_lt-field :
    (a b x y : Bytes)
    → length a < 2 ^ 16
    → length b < 2 ^ 16
    → blob_lt (put_uint16 (length a) ++ (a ++ x)) (put_uint16 (length b) ++ (b ++ y))
      ≡ (if equal a b then blob_lt x y else before a b)
blob_lt-field a b x y ha hb =
    blob_lt-put_uint16 (length a) (length b) (a ++ x) (b ++ y) ha hb
    ∙ ground (arith, blob_lt-same_length a b x y, equal_iff a b)

-- A key by its parts.
abbrev key_of : Bytes → Bytes → ℕ → Bytes → Bytes
key_of kind unit_id t rnd =
    0x01
    ∷ (put_uint16 (length kind)
        ++ (kind ++ (put_uint16 (length unit_id) ++ (unit_id ++ (put_uint64 t ++ rnd)))))

blob_lt-key_of :
    (k k' u u' : Bytes) (t t' : ℕ) (r r' : Bytes)
    → length k < 2 ^ 16
    → length k' < 2 ^ 16
    → length u < 2 ^ 16
    → length u' < 2 ^ 16
    → t < 2 ^ 64
    → t' < 2 ^ 64
    → blob_lt (key_of k u t r) (key_of k' u' t' r') ≡ (
        if equal k k'
        then (if equal u u' then (if t == t' then blob_lt r r' else ltb t t') else before u u')
        else before k k')
blob_lt-key_of k k' u u' t t' r r' hk hk' hu hu' ht ht' =
    blob_lt-field k k' _ _ hk hk'
    ∙ (rw (blob_lt-field u u' (put_uint64 t ++ r) (put_uint64 t' ++ r') hu hu')
        (rw (blob_lt-put_uint64 t t' r r' ht ht') refl))

-- No bytes are above as many bytes 0xFF.
padding_lem : (r : Bytes) (n : ℕ) → IsBytes r → length r ≡ n → blob_lt (replicate n 0xff) r ≡ false
padding_lem [] n b h = ground arith
padding_lem (x ∷ r) zero b h = ground arith
padding_lem (x ∷ r) (suc n) b h = ground (arith, padding_lem r n b.1)

no_key_before_empty : (r : Bytes) → blob_lt r [] ≡ false
no_key_before_empty [] = refl
no_key_before_empty (x ∷ r) = refl

lower_lem : (k u : Bytes) (a : ℕ) → kind_unit_prefix k u ++ put_uint64 a ≡ key_of k u a []
unfolding kind_unit_prefix
lower_lem k u a = simp (append_assoc, append-nil)

upper_lem :
    (k u : Bytes) (b : ℕ) (r : Bytes) → kind_unit_prefix k u ++ (put_uint64 b ++ r) ≡ key_of k u b r
unfolding kind_unit_prefix
upper_lem k u b r = simp (append_assoc)

bounds_lem :
    (k u : Bytes) (a b : ℕ)
    → scan_bounds k u (pos a) (pos b) ≡ (key_of k u a [], key_of k u b (replicate 8 0xff))
unfolding scan_bounds
bounds_lem k u a b = cc (lower_lem k u a, upper_lem k u b (replicate 8 0xff))

between :
    (k k' u u' : Bytes) (a b t : ℕ) (r : Bytes)
    → length k < 2 ^ 16
    → length k' < 2 ^ 16
    → length u < 2 ^ 16
    → length u' < 2 ^ 16
    → a < 2 ^ 64
    → b < 2 ^ 64
    → t < 2 ^ 64
    → IsBytes r
    → length r ≡ 8
    → in_closed (key_of k u a []) (key_of k u b (replicate 8 0xff)) (key_of k' u' t r)
      ≡ (equal k k' && (equal u u' && (leb a t && leb t b)))
between k k' u u' a b t r hk hk' hu hu' ha hb ht hr hl =
    rw
      (
        blob_lt-key_of k' k u' u t a r [] hk' hk hu' hu ht ha,
        blob_lt-key_of k k' u u' b t (replicate 8 0xff) r hk hk' hu hu' hb ht,
        no_key_before_empty r,
        padding_lem r 8 hr hl,
      )
      (ground (arith, equal_comm k k', equal_comm u u', before_total k k', before_total u u'))

-- Of the keys that `build_key` makes, for any kind and unit, with a time from 1970 on and eight
-- random bytes, the bounds of a scan (from 1970 on, for a kind and a unit that fit in 16 bits) hold
-- exactly those of its kind and unit whose time lies between its start and its end, both included.
pub scan_bounds-build_key :
    (kind unit_id kind' unit_id' : Bytes) (start end t : ℕ) (rnd key : Bytes)
    → length kind ≤ 0xffff
    → length unit_id ≤ 0xffff
    → start < 2 ^ 63
    → end < 2 ^ 63
    → t < 2 ^ 63
    → IsBytes rnd
    → length rnd ≡ 8
    → build_key kind' unit_id' (pos t) rnd ≡ ok key
    → in_closed
        (scan_bounds kind unit_id (pos start) (pos end)).0
        (scan_bounds kind unit_id (pos start) (pos end)).1
        key
      ≡ (equal kind kind' && (equal unit_id unit_id' && (leb start t && leb t end)))
unfolding build_key
scan_bounds-build_key kind unit_id kind' unit_id' start end t rnd key hk hu hs he ht hr hl h =
    rw (bounds_lem kind unit_id start end)
      (ground (arith, between kind kind' unit_id unit_id' start end t rnd))
