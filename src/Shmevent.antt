-- ===== src/Shmevent.antt =====
-- pkg/shmevent: the keys of the reserved namespace and the payloads that the replicated state
-- machine reads. A Go string is its bytes.
pub mod System
pub mod Catalog
pub mod CommandPayload
pub mod Txn
pub mod CommandRequest
pub mod Invite
pub mod Framing
pub mod RoundTrip
pub mod ChannelFrame
pub mod Text
pub mod EventName
