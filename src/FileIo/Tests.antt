-- ===== src/FileIo/Tests.antt =====
-- Runs of the programs of file_io on answers of the file system.
use rtems_examples.Common.{ℕ, zero, suc, []}
use rtems_examples.FileIo.{Try, open_fails, writes, Opens}

abbrev closed : Opens
closed = record { open_count = 0; open_failed = []; write_failed = []; passes = [] }

-- The first try fails to open, the second passes, and the third writes too little.
abbrev answers : ℕ → Try
answers zero = open_fails
answers (suc zero) = writes 4
answers (suc (suc i)) = writes 3
