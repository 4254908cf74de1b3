-- ===== src/Daemon.antt =====
-- guestend/daemon.c: the guest process that fetches messages, loads the programs that they carry and
-- forwards the affinity masks which those programs log.
pub mod Recv
pub mod Poll
pub mod Masks
pub mod Children
pub mod Main
