-- ===== src/Prelude/Errors.antt =====
-- The error numbers that the code names, and any other that a system call returns.
use Prim.Native.Nat.{ℕ}

pub data Errno : Type 0 where
  eagain einval enomem eintr etimedout : Errno
  other : ℕ → Errno
