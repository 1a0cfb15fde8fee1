-- ===== src/Files/Vfs/Mounts.antt =====
-- kernel/fs/vfs.cpp: which mount point a path belongs to.
use nekosys.Base.{
  ◌≡◌, refl, sym, ap, ◌∙◌, subst, true, false, none, some, List, [], ◌∷◌, ◌++◌, if◌then◌else◌, All,
  Bool-cases, inl, inr, append_assoc,
}
use nekosys.Neko.Text.{Text, starts_with, equals_c}
use nekosys.Neko.Text.Laws.{starts_with-prefix}
use nekosys.Files.Vfs.{
  MountPoint, VirtualFileSystem, mount_loop, find_mount_point, exists, open_file, list_directory,
  get_file_meta, root, root_entry, invalid_entry,
}

mount_loop-first :
    (ms : List MountPoint) (path : Text) (m : MountPoint)
    → mount_loop ms path ≡ some m
    → (before after : List MountPoint) × (ms ≡ before ++ (m ∷ after))
      × All (λ b. starts_with path b.path ≡ false) before
      × ((rest : Text) × (path ≡ m.path ++ rest))
unfolding mount_loop
mount_loop-first [] path m e = cc
mount_loop-first (r ∷ ms) path m e = elim (Bool-cases (starts_with path r.path)) [
  | inl here ↦
      let q : r ≡ m = cc (rw (here, mount_loop) at e) in
      (
        [],
        ms,
        ap (λ z. z ∷ ms) q,
        tt,
        (starts_with-prefix path m.path).0 (subst (λ z. starts_with path z.path ≡ true) q here),
      )
  | inr there ↦
      let (before, after, split, none_before, prefix) =
        mount_loop-first ms path m (rw (there, mount_loop) at e) in
      (r ∷ before, after, ap (◌∷◌ r) split, (there, none_before), prefix)
]

-- The mount point found for a path is the first one whose path the path starts with.
pub find_mount_point_first :
    (v : VirtualFileSystem) (path : Text) (m : MountPoint)
    → find_mount_point v path ≡ some m
    → (before after : List MountPoint) × (v.mounts ≡ before ++ (m ∷ after))
      × All (λ b. starts_with path b.path ≡ false) before
      × ((rest : Text) × (path ≡ m.path ++ rest))
unfolding find_mount_point
find_mount_point_first v path m e = mount_loop-first v.mounts path m e

prefix_trans :
    (path a b : Text)
    → starts_with path a ≡ true
    → starts_with a b ≡ true
    → starts_with path b ≡ true
prefix_trans path a b p q =
    let (r, e) = (starts_with-prefix path a).0 p in
    let (s, f) = (starts_with-prefix a b).0 q in
    (starts_with-prefix path b).1 (s ++ r, e ∙ ap (λ z. z ++ r) f ∙ append_assoc b s r)

mount_loop-behind :
    (before after : List MountPoint) (first m : MountPoint) (path : Text)
    → starts_with m.path first.path ≡ true
    → starts_with path first.path ≡ false
    → mount_loop (before ++ (m ∷ after)) path ≡ mount_loop (before ++ after) path
unfolding mount_loop
mount_loop-behind [] after first m path under apart = elim (Bool-cases (starts_with path m.path)) [
  | inl above ↦ cc (prefix_trans path m.path first.path above under, apart)
  | inr other ↦ rw other refl
]
mount_loop-behind (b ∷ before) after first m path under apart =
    ap (λ z. if starts_with path b.path then some b else z)
      (mount_loop-behind before after first m path under apart)

mount_loop-cong :
    (before xs ys : List MountPoint) (path : Text)
    → mount_loop xs path ≡ mount_loop ys path
    → mount_loop (before ++ xs) path ≡ mount_loop (before ++ ys) path
unfolding mount_loop
mount_loop-cong [] xs ys path e = e
mount_loop-cong (b ∷ before) xs ys path e =
    ap (λ z. if starts_with path b.path then some b else z) (mount_loop-cong before xs ys path e)

mount_loop-shadows :
    (first m : MountPoint) (between after : List MountPoint) (path : Text)
    → starts_with m.path first.path ≡ true
    → mount_loop (first ∷ (between ++ (m ∷ after))) path
      ≡ mount_loop (first ∷ (between ++ after)) path
unfolding mount_loop
mount_loop-shadows first m between after path under =
    elim (Bool-cases (starts_with path first.path)) [
      | inl above ↦ rw above refl
      | inr apart ↦ rw apart (mount_loop-behind between after first m path under apart)
    ]

-- A file system that is mounted below the path of an earlier mount is never found: lookups give the
-- same mount points as without it.
pub find_mount_point_shadows :
    (first m : MountPoint) (before between after : List MountPoint) (v w : VirtualFileSystem)
    (path : Text)
    → starts_with m.path first.path ≡ true
    → v.mounts ≡ before ++ (first ∷ (between ++ (m ∷ after)))
    → w.mounts ≡ before ++ (first ∷ (between ++ after))
    → find_mount_point v path ≡ find_mount_point w path
unfolding find_mount_point
find_mount_point_shadows first m before between after v w path under ev ew =
    ap (λ z. mount_loop z path) ev
    ∙ mount_loop-cong before _ _ path (mount_loop-shadows first m between after path under)
    ∙ ap (λ z. mount_loop z path) (sym ew)

mount_loop-none :
    (ms : List MountPoint) (path : Text)
    → All (λ m. starts_with path m.path ≡ false) ms
    → mount_loop ms path ≡ none
unfolding mount_loop
mount_loop-none [] path h = refl
mount_loop-none (m ∷ ms) path h = rw h.0 (mount_loop-none ms path h.1)

-- Where no mount point's path is a prefix of a path, opening it gives the invalid handle 0 and
-- changes nothing, its directory is empty, its meta data are invalid unless it is the root, and
-- asking whether it exists goes through a null pointer.
pub unmounted_path_fails :
    (v : VirtualFileSystem) (path : Text)
    → All (λ m. starts_with path m.path ≡ false) v.mounts
    → (open_file v path ≡ (0, v))
      × (list_directory v path ≡ [])
      × (get_file_meta v path ≡ (if equals_c path root then root_entry else invalid_entry))
      × (exists v path ≡ none)
unfolding find_mount_point open_file list_directory get_file_meta exists
unmounted_path_fails v path h =
    let nothing = mount_loop-none v.mounts path h in
    (
      simp (nothing, open_file),
      simp (nothing, list_directory),
      simp (nothing, get_file_meta),
      simp (nothing, exists),
    )
