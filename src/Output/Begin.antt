-- ===== src/Output/Begin.antt =====
-- The start of the output module (output_ffmpeg.c, output_factory.c), and the first chunk after it.
use p2pxineplugin.Chunk.{Chunk}
