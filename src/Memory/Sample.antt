-- ===== src/Memory/Sample.antt =====
-- A memory for runs on concrete inputs: what is allocated is zero, and so are the 64 bytes behind each block.
use pekar_drive.Common.{replicate, length-replicate}
use pekar_drive.Memory.{Memory}

abbrev pub zeroed : Memory
zeroed = record {
  malloc = λ n. replicate n 0;
  length-malloc = λ n. length-replicate n 0;
  behind = replicate 64 0;
}
