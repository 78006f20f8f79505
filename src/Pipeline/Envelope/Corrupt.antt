-- ===== src/Pipeline/Envelope/Corrupt.antt =====
-- What comes out of the queue for a corrupt frame: one of a decoded type whose length is wrong, for
-- which the decoder calls `on_other`, so that `QueueProducer` of include/pipeline/threaded_replay.hpp
-- pushes its type with an empty order as the member of the union.
use itch_lob_engine.Pipeline.BookBuilder.{BookBuilder}
use itch_lob_engine.Pipeline.Envelope.{Envelope}
