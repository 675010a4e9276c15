-- ===== src/Async/Descriptor.antt =====
-- src/kclpp/posix/FileDescriptor.cpp: a descriptor that has one owner. Descriptors are numbers, and
-- 0 stands for none; the operating system's `close` is the number that an operation answers.
use kclpp.Prelude.{ℕ, String, Bool, Option, none, some, ltb, if◌then◌else◌}
use kclpp.Outcome.{Outcome, success, failure}

pub record FileDescriptor : Type 0 where
  pub fd : ℕ

abbrev pub take_ownership : ℕ → FileDescriptor
take_ownership n = record { fd = n }

unfoldable pub good : FileDescriptor → Bool
good f = ltb 0 f.fd

unfoldable pub get : FileDescriptor → Outcome ℕ String
unfolding good
get f = if good f then success f.fd else failure "Invalid file descriptor."

-- the answer, and the descriptor after it
unfoldable pub release : FileDescriptor → Outcome ℕ String × FileDescriptor
unfolding good get
release f = let result = get f in (result, if good f then record f { fd = 0 } else f)

-- the move constructor: the new descriptor, and the one it was moved from
unfoldable pub move : FileDescriptor → FileDescriptor × FileDescriptor
move other = (record { fd = other.fd }, record other { fd = 0 })

-- move assignment: the target and the source after it
unfoldable pub assign : FileDescriptor → FileDescriptor → FileDescriptor × FileDescriptor
assign f other = (record f { fd = other.fd }, record other { fd = f.fd })

-- the descriptor that is closed, if one is, and the owner after it; the destructor does the same
unfoldable pub maybe_close : FileDescriptor → Option ℕ × FileDescriptor
maybe_close f = if ltb 0 f.fd then (some f.fd, record f { fd = 0 }) else (none, f)
