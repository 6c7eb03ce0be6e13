-- ===== src/Events.antt =====
-- components/wdc_events: the event record, the bounded event queue and the event envelope.
pub mod Event
pub mod Queue
pub mod Envelope
pub mod Carried
pub mod Room
