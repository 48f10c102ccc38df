-- ===== src/Mdns.antt =====
-- compute_space/src/compute_space/core/mdns (packets.py, answers.py): answering multicast DNS queries for
-- the names under the host's `.local` domains.
pub mod Bytes
pub mod Packets
pub mod Answers
pub mod Responder
mod Tests
