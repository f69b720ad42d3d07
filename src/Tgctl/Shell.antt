-- ===== src/Tgctl/Shell.antt =====
-- What the subcommands of src/tateyama/tgctl/tgctl.cpp share: the flags, which they change, the
-- world, and what has been written to the monitor file.
use tateyama_bootstrap.Prelude.{List}
use tateyama_bootstrap.Reason.{Error, Result, throws}
use tateyama_bootstrap.Reason
use tateyama_bootstrap.Process.Os.{Flags, Record}

pub record Shell (S : Type 0) : Type 0 where
  pub flags : Flags
  pub world : S
  pub written : List Record

-- A command that may throw.
abbrev pub Run : Type 0 → Type 0 → Type 0
Run S A = Shell S → Result A × Shell S

abbrev pub next : {S A B : Type 0} → (A → Run S B) → Result A × Shell S → Result B × Shell S
next f (Reason.ok a, sh) = f a sh
next f (throws e, sh) = (throws e, sh)

infixl 5 ◌>>=◌
abbrev pub ◌>>=◌ : {S A B : Type 0} → Run S A → (A → Run S B) → Run S B
m >>= f = λ sh. next f (m sh)

abbrev pub give : {S A : Type 0} → A → Run S A
give a = λ sh. (Reason.ok a, sh)
