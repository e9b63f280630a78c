-- ===== src/Shmevent/Text.antt =====
-- Go's `==` on strings, for whole texts that are only compared.
use Prim.Native.String.{String, compare}
use Prim.Native.Nat.{Ordering}
use libp2p_kv_raft.Base.{Bool, true, false}

abbrev pub same_text : String → String → Bool
same_text a b = elim (compare a b) [ Ordering.eq ↦ true | _ ↦ false ]
