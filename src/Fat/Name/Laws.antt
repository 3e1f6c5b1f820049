-- ===== src/Fat/Name/Laws.antt =====
-- The length of a name in a directory entry.
use yoz_os.Base.{
  ℕ, zero, suc, ◌≡◌, refl, ap, arith, ◌==◌, Bool-cases, inl, inr, List, [], ◌∷◌, length,
  length-append, length-replicate, replicate, Option, none, some,
}
use yoz_os.Fat.Name.{base_to_83, after_dot, ext_to_83, name_to_83}

length-base_to_83 : (room : ℕ) (cs : List ℕ) → length (base_to_83 room cs) ≡ room
unfolding base_to_83
length-base_to_83 zero cs = refl
length-base_to_83 (suc room) [] = length-replicate (suc room) b' '
length-base_to_83 (suc room) (c ∷ cs) = elim (Bool-cases (c == b'.')) [
  | inl t ↦ rw t (length-replicate (suc room) b' ')
  | inr t ↦ rw t (ap suc (length-base_to_83 room cs))
]

length-ext_to_83 : (room : ℕ) (cs : List ℕ) → length (ext_to_83 room cs) ≡ room
unfolding ext_to_83
length-ext_to_83 zero cs = refl
length-ext_to_83 (suc room) [] = length-replicate (suc room) b' '
length-ext_to_83 (suc room) (c ∷ cs) = ap suc (length-ext_to_83 room cs)

-- A name takes the eleven bytes of its field.
pub length-name_to_83 : (name : List ℕ) → length (name_to_83 name) ≡ 11
unfolding name_to_83
length-name_to_83 name = go (after_dot name) refl
  where
    go : (o : Option (List ℕ)) → after_dot name ≡ o → length (name_to_83 name) ≡ 11
    go none e =
        rw (name_to_83, e)
          (omega
            (arith, length-append (base_to_83 8 name) (replicate 3 b' '), length-base_to_83 8 name))
    go (some ext) e =
        rw (name_to_83, e)
          (omega (
            arith,
            length-append (base_to_83 8 name) (ext_to_83 3 ext),
            length-base_to_83 8 name,
            length-ext_to_83 3 ext,
          ))
