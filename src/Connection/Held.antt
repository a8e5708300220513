-- ===== src/Connection/Held.antt =====
-- The locks that the slot handler of ampi/vc4/vchiq/vchiq_core.c holds while the connection is paused.
