-- ===== src/Copy/Tests.antt =====
-- box.go: the copy of a tree with a file of two names in a directory that nobody may write.
use curimata.Common.{ℕ, ◌≡◌, refl, false, [], ◌∷◌, List, none, bytes_eq, codes}
use curimata.Files.{FilePath}
use curimata.Copy.{
  Kind, directory, regular, symlink, other, Entry, made_directory, made_file, made_link, Target,
  World, copy_tree,
}
use curimata.Copy.Links.{Inodes}

abbrev entry : FilePath → Kind → ℕ → Entry
entry path kind mode = record {
  path = path;
  kind = kind;
  mode = mode;
  time = 7;
  links = 1;
  device = 1;
  inode = 0;
  body = [];
}

abbrev root : Entry
root = entry [] directory 493

abbrev named : FilePath → Entry
named path = record (entry path regular 2541) { links = 2; inode = 5; body = codes "sh" }

abbrev tree : List Entry
tree =
    entry (codes "bin" ∷ []) directory 365
    ∷ named (codes "ash" ∷ codes "bin" ∷ [])
    ∷ named (codes "sh" ∷ codes "bin" ∷ [])
    ∷ record (entry (codes "lib" ∷ []) symlink 511) { body = codes "usr/lib" }
    ∷ entry (codes "log" ∷ []) other 511
    ∷ []

abbrev fine : World
fine = record { walk_fails = λ e. false; call_fails = λ e. false; attributes_fail = λ p. false }

abbrev copied : Target
copied =
    ([], made_directory 493 7)
    ∷ (codes "bin" ∷ [], made_directory 365 7)
    ∷ (codes "lib" ∷ [], made_link (codes "usr/lib"))
    ∷ (
      codes "sh" ∷ codes "bin" ∷ [],
      made_file (codes "ash" ∷ codes "bin" ∷ []) 2541 7 (codes "sh"),
    )
    ∷ (
      codes "ash" ∷ codes "bin" ∷ [],
      made_file (codes "ash" ∷ codes "bin" ∷ []) 2541 7 (codes "sh"),
    )
    ∷ (codes "bin" ∷ [], made_directory 448 0)
    ∷ ([], made_directory 448 0)
    ∷ []

-- Two entries for one name end the copy.
name_taken :
    copy_tree fine
      (root ∷ entry (codes "a" ∷ []) symlink 511 ∷ entry (codes "a" ∷ []) regular 420 ∷ [])
    ≡ none
unfolding copy_tree bytes_eq
name_taken = refl

abbrev inodes : Inodes
inodes d i = (2541, 7, codes "sh")
