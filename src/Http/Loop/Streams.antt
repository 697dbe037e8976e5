-- ===== src/Http/Loop/Streams.antt =====
-- The bytes of a connection, from the network to the readers, while others may close it.
