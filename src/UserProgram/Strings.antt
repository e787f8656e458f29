-- ===== src/UserProgram/Strings.antt =====
-- What the transfers of userprog/transfer.cc do with the end of a string.
use so_ii.Base.{
  assert, ℕ, suc, ◌==◌, ◌≡◌, refl, Bool, true, false, not, List, [], ◌∷◌, ◌++◌, length, some,
  if◌then◌else◌, Run, ok, fault, ◌>>=◌, arith,
}
use so_ii.Processor.{Machine, Handlers}
use so_ii.Processor.Words.{add32}
use so_ii.UserProgram.Transfer.{
  write_byte, write_buffer_from, write_string_from, write_buffer_to_user, write_string_to_user,
}

-- No byte is the end of a string.
abbrev pub are_characters : List ℕ → Bool
are_characters [] = true
are_characters (byte ∷ bytes) = if byte == 0 then false else are_characters bytes

bind_congr :
    {A B : Type 0} (r : Run A) (f g : A → Run B) → ((a : A) → f a ≡ g a) → (r >>= f) ≡ (r >>= g)
bind_congr (ok a) f g h = h a
bind_congr (fault e) f g h = refl

module _ (handlers : Handlers) where
  from_first :
      (byte : ℕ) (bytes rest : List ℕ) (m : Machine) (user_address : ℕ)
      → are_characters bytes ≡ true
      → write_string_from handlers m user_address (byte ∷ bytes ++ 0 ∷ rest)
        ≡ write_buffer_from handlers (suc (length bytes)) m user_address (byte ∷ bytes ++ 0 ∷ rest)
  unfolding write_string_from write_buffer_from
  from_first byte [] rest m a h = bind_congr (write_byte handlers m a byte) _ _ (λ m₁. refl)
  from_first byte (next ∷ bytes) rest m a h =
      bind_congr (write_byte handlers m a byte) _ _
        (λ m₁. rw other (from_first next bytes rest m₁ (add32 a 1) characters))
    where
      other : (next == 0) ≡ false
      other = ground (arith, h)

      characters : are_characters bytes ≡ true
      characters = rw other at h

  -- `WriteStringToUser` of a string that is not empty copies its characters and not the byte that ends
  -- it: it does just what `WriteBufferToUser` does with the length of the string.
  pub write_string_to_user_lem :
      (byte : ℕ) (bytes rest : List ℕ) (m : Machine) (user_address : ℕ)
      → are_characters bytes ≡ true
      → write_string_to_user handlers m (some (byte ∷ bytes ++ 0 ∷ rest)) user_address
        ≡ write_buffer_to_user handlers m
            (byte ∷ bytes ++ 0 ∷ rest)
            user_address
            (suc (length bytes))
  unfolding write_string_to_user write_buffer_to_user
  write_string_to_user_lem byte bytes rest m a h =
      bind_congr (assert (not (a == 0))) _ _ (λ x. rw not_empty (from_first byte bytes rest m a h))
    where
      not_empty : (suc (length bytes) == 0) ≡ false
      not_empty = ground arith
