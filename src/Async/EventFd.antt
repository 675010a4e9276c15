-- ===== src/Async/EventFd.antt =====
-- src/kclpp/async/EventFD.cpp: a counter of the operating system behind a descriptor. `read(2)`,
-- `write(2)` and `strerror` are parameters, on a state `K` of the counter.
use kclpp.Prelude.{ℕ, suc, ◌+◌, ◌<◌, ◌≡◌, String, ◌==◌, ltb, if◌then◌else◌}
use kclpp.Outcome.{Outcome, success, failure}
use kclpp.Async.Descriptor.{FileDescriptor, get, take_ownership}

pub data Errno : Type 0 where
  no_error would_block : Errno
  other_error : String → Errno

-- what `read` answers: eight bytes, none, or a negative number with the error
pub data ReadReturn : Type 0 where
  read_value : ℕ → ReadReturn
  read_nothing read_failed : Errno → ReadReturn

-- what `write` answers: the number of bytes, or a negative number with the error
pub data WriteReturn : Type 0 where
  wrote : ℕ → WriteReturn
  write_failed : Errno → WriteReturn

pub data EventfdReturn : Type 0 where
  eventfd_opened : ℕ → EventfdReturn
  eventfd_failed : Errno → EventfdReturn

pub record Os (K : Type 0) : Type 0 where
  pub sys_read : K → ReadReturn × K
  pub sys_write : ℕ → K → WriteReturn × K
  pub strerror : Errno → String

-- The message that a `NotReady` carries is apart from the texts of the other errors.
pub data EventFdError : Type 0 where
  couldnt_create read_error not_ready write_error : String → EventFdError

abbrev pub what : EventFdError → String
what (couldnt_create s) = s
what (read_error s) = s
what (not_ready s) = s
what (write_error s) = s

pub record EventFd (K : Type 0) : Type 0 where
  pub descriptor : FileDescriptor
  pub counter : K

-- What eventfd(2) documents of a counter that does not block, opened without EFD_SEMAPHORE: a read
-- answers the count and sets it to 0, and fails where it is 0; a write adds, unless the sum passes
-- the greatest value.
pub record IsEventfd {K : Type 0} (os : Os K) (limit : ℕ) (count : K → ℕ) : Type 0 where
  pub read_ready :
      (k : K) (n : ℕ)
      → count k ≡ suc n
      → (k' : K) × (os.sys_read k ≡ (read_value (suc n), k')) × (count k' ≡ 0)
  pub read_empty :
      (k : K)
      → count k ≡ 0
      → (k' : K) × (os.sys_read k ≡ (read_failed would_block, k')) × (count k' ≡ 0)
  pub write_fits :
      (k : K)
      → count k + 1 < limit
      → (k' : K) × (os.sys_write 1 k ≡ (wrote 8, k')) × (count k' ≡ count k + 1)
  pub write_full :
      (k : K)
      → limit < count k + 2
      → (k' : K) × (os.sys_write 1 k ≡ (write_failed would_block, k')) × (count k' ≡ count k)

module _ {K : Type 0} (os : Os K) where
  unfoldable pub create : EventfdReturn → K → Outcome (EventFd K) EventFdError
  create (eventfd_failed e) k = failure (couldnt_create (os.strerror e))
  create (eventfd_opened fd) k =
      if ltb 0 fd
      then success (record { descriptor = take_ownership fd; counter = k })
      else failure (couldnt_create (os.strerror no_error))

  on_read : ReadReturn → Outcome ℕ EventFdError
  on_read (read_value buff) = success buff
  on_read (read_failed would_block) = failure (not_ready "NotReady")
  on_read (read_failed e) = failure (read_error (os.strerror e))
  on_read (read_nothing no_error) = failure (not_ready "NotReady")
  on_read (read_nothing e) = failure (not_ready (os.strerror e))

  read_with : Outcome ℕ String → EventFd K → Outcome ℕ EventFdError × EventFd K
  unfolding on_read
  read_with (failure e) efd = (failure (read_error "Invalid file descriptor."), efd)
  read_with (success fd) efd =
      let (nr, k) = os.sys_read efd.counter in (on_read nr, record efd { counter = k })

  unfoldable pub read : EventFd K → Outcome ℕ EventFdError × EventFd K
  unfolding read_with get
  read efd = read_with (get efd.descriptor) efd

  on_write : WriteReturn → Outcome (Unit {0}) EventFdError
  on_write (write_failed e) = failure (write_error (os.strerror e))
  on_write (wrote nr) = if nr == 8 then success tt else failure (write_error "Unknown write error.")

  write_with : Outcome ℕ String → ℕ → EventFd K → Outcome (Unit {0}) EventFdError × EventFd K
  unfolding on_write
  write_with (failure e) num efd = (failure (write_error "Invalid file descriptor."), efd)
  write_with (success fd) num efd =
      let (nr, k) = os.sys_write num efd.counter in (on_write nr, record efd { counter = k })

  unfoldable pub write : ℕ → EventFd K → Outcome (Unit {0}) EventFdError × EventFd K
  unfolding write_with get
  write num efd = write_with (get efd.descriptor) num efd
