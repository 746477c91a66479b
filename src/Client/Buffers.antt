-- ===== src/Client/Buffers.antt =====
-- Program::getSharedBuffer and Program::getLocalBuffer of src/component/program.cpp: the buffers of a
-- program, by their names.
use megastructure.Common.{
  ℕ, ◌&&◌, List, [], ◌∷◌, Option, none, some, String, ◌==◌, if◌then◌else◌, str_eq, Result, ok,
  throws,
}
use megastructure.Slave.Shared.{SharedBuffer, find_buffer, put_buffer}
use megastructure.Client.Program.{Program}

-- `shared_name` is what the coordinator answers for the name and the size.
unfoldable pub get_shared_buffer : String → String → ℕ → Program → SharedBuffer × Program
unfolding find_buffer put_buffer
get_shared_buffer shared_name name size p =
    let new : SharedBuffer = record { shared_name = shared_name; size = size } in
    let acquired : SharedBuffer × Program =
      (new, record p { shared_buffers = put_buffer name new p.shared_buffers }) in
    elim (find_buffer name p.shared_buffers) [
      | none ↦ acquired
      | some b ↦ if b.size == size && str_eq b.shared_name shared_name then (b, p) else acquired
    ]

-- A local buffer is its size. A second request for a name throws.
unfoldable pub find_local : String → List (String × ℕ) → Option ℕ
find_local name [] = none
find_local name ((n, size) ∷ rest) = if str_eq n name then some size else find_local name rest

unfoldable pub get_local_buffer : String → ℕ → Program → Result (ℕ × Program)
unfolding find_local
get_local_buffer name size p = elim (find_local name p.cache_buffers) [
  | none ↦ ok (size, record p { cache_buffers = (name, size) ∷ p.cache_buffers })
  | some _ ↦ throws
]
