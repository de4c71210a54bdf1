-- ===== src/Recipe/Tests.antt =====
-- A run of the function that removes repetitions.
use pwnbridge.Prelude.{List, [], ◌∷◌, ◌≡◌, refl}
use pwnbridge.Prelude.Text.{Bytes, codes, bytes_eq}
use pwnbridge.Config.Names.{one_of}
use pwnbridge.Recipe.{stable_unique, unique_from}

abbrev twice : List Bytes
twice = codes "gdb" ∷ codes "core" ∷ codes "gdb" ∷ []

unique_twice : stable_unique twice ≡ codes "gdb" ∷ codes "core" ∷ []
unfolding stable_unique unique_from one_of bytes_eq
unique_twice = refl
