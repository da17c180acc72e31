-- ===== src/Storage/Files/Laws.antt =====
-- What the calls of the file system in storage.py leave as it was: the file at a path that they do
-- not name.
use password_bonobo.Prelude.{
  ◌≡◌, refl, true, false, none, some, Option, Bool, ℕ, ◌==◌, inl, inr, Bool-cases, Option-cases,
  if◌then◌else◌, arith,
}
use password_bonobo.Prelude.Bytes.{Bytes, bytes_eq}
use password_bonobo.Errors.{Error, ok}
use password_bonobo.Storage.Evidence.{FileBaseline}
use password_bonobo.Storage.Files.{
  World, File, Store, StorageStage, hit, hit_armed, token_hex, random_bytes, make, create_file,
  open_found, open_file, write_file, unlink, rename, link_to, link, capture_open_descriptor,
  capture_regular_file, capture_anchor_child, open_child_found, open_child, copy_to, remove_if_same,
  same_baseline, with_files, put, too_large, baseline_of, stage_number, removed_or_not,
}
use password_bonobo.Storage.Action.{Action, ◌>>=◌, ◌>>◌, fail_if, pure, attempt}
use password_bonobo.Storage.Action.Laws.{
  KeepsView, bind-KeepsView, attempt-KeepsView, fail_if-KeepsView,
}

-- An action that leaves the file at a path as it is.
abbrev pub Leaves : {A : Type 0} → Bytes → Action World A → Type 0
Leaves d m = KeepsView (λ w. w.files d) m

module _ (d : Bytes) where
  pub then-Leaves :
      {A B : Type 0} (m : Action World A) (next : A → Action World B)
      → Leaves d m
      → ((a : A) → Leaves d (next a))
      → Leaves d (m >>= next)
  then-Leaves m next h k = bind-KeepsView (λ w. w.files d) m next h k

  pub attempt-Leaves :
      {A : Type 0} (m : Action World A) (handler : Error → Action World A)
      → Leaves d m
      → ((e : Error) → Leaves d (handler e))
      → Leaves d (attempt m handler)
  attempt-Leaves m handler h k = attempt-KeepsView (λ w. w.files d) m handler h k

  pub check-Leaves : (b : Bool) (e : Error) → Leaves d (fail_if b e)
  check-Leaves b e = fail_if-KeepsView (λ w. w.files d) b e

  hit_armed-Leaves : (stage : StorageStage) (o : Option StorageStage) → Leaves d (hit_armed stage o)
  hit_armed-Leaves stage none w = refl
  hit_armed-Leaves stage (some armed) w =
      elim (Bool-cases (stage_number stage == stage_number armed)) [ inl e ↦ rw e | inr e ↦ rw e ]

  pub hit-Leaves : (stage : StorageStage) → Leaves d (hit stage)
  unfolding hit
  hit-Leaves stage w = hit_armed-Leaves stage w.fault w

  pub token_hex-Leaves : (store : Store) → Leaves d (token_hex store)
  unfolding token_hex
  token_hex-Leaves store w = refl

  pub random_bytes-Leaves : (store : Store) (n : ℕ) → Leaves d (random_bytes store n)
  unfolding random_bytes
  random_bytes-Leaves store n w = refl

  open_found-Leaves : (o : Option File) → Leaves d (open_found o)
  open_found-Leaves none w = refl
  open_found-Leaves (some file) w = refl

  pub open_file-Leaves : (path : Bytes) → Leaves d (open_file path)
  unfolding open_file
  open_file-Leaves path w = open_found-Leaves (w.files path) w

  open_child_found-Leaves : (o : Option File) → Leaves d (open_child_found o)
  open_child_found-Leaves none w = refl
  open_child_found-Leaves (some file) w = refl

  pub open_child-Leaves : (path : Bytes) → Leaves d (open_child path)
  unfolding open_child
  open_child-Leaves path w = open_child_found-Leaves (w.files path) w

  pub capture_open-Leaves :
      (store : Store) (file : File) → Leaves d (capture_open_descriptor store file)
  unfolding capture_open_descriptor
  capture_open-Leaves store file = then-Leaves _ _ (check-Leaves _ _) (λ u w. refl)

  pub capture_regular_file-Leaves :
      (store : Store) (path : Bytes) → Leaves d (capture_regular_file store path)
  unfolding capture_regular_file
  capture_regular_file-Leaves store path =
      attempt-Leaves _ _
        (then-Leaves _ _ (open_file-Leaves path) (λ file. capture_open-Leaves store file))
        (λ e w. refl)

  pub capture_anchor_child-Leaves :
      (store : Store) (path : Bytes) → Leaves d (capture_anchor_child store path)
  unfolding capture_anchor_child
  capture_anchor_child-Leaves store path =
      then-Leaves _ _ (open_child-Leaves path) (λ file. capture_open-Leaves store file)

  removed_or_not-Leaves : (e : Error) → Leaves d (removed_or_not e)
  removed_or_not-Leaves e w = ground arith

  module _ (path : Bytes) (apart : bytes_eq path d ≡ false) where
    make-Leaves : (o : Option File) → Leaves d (make path o)
    make-Leaves none w = rw apart
    make-Leaves (some file) w = refl

    pub create_file-Leaves : Leaves d (create_file path)
    unfolding create_file
    create_file-Leaves w = make-Leaves (w.files path) w

    pub write_file-Leaves : (content : Bytes) → Leaves d (write_file path content)
    unfolding write_file
    write_file-Leaves content = then-Leaves _ _ (open_file-Leaves path) (λ file. λ w. rw apart)

    pub unlink-Leaves : Leaves d (unlink path)
    unfolding unlink
    unlink-Leaves = then-Leaves _ _ (open_file-Leaves path) (λ file. λ w. rw apart)

    pub copy_to-Leaves : (file : File) → Leaves d (copy_to file path)
    unfolding copy_to
    copy_to-Leaves file = then-Leaves _ _ (check-Leaves _ _) (λ u. write_file-Leaves file.content)

    unlink_when-Leaves :
        (same : Bool) → Leaves d (if same then (unlink path >> pure true) else pure false)
    unlink_when-Leaves true w = then-Leaves _ _ unlink-Leaves (λ u w. refl) w
    unlink_when-Leaves false w = refl

    pub remove_if_same-Leaves :
        (store : Store) (baseline : FileBaseline) → Leaves d (remove_if_same store path baseline)
    unfolding remove_if_same
    remove_if_same-Leaves store baseline =
        attempt-Leaves _ _
          (then-Leaves _ _ (capture_regular_file-Leaves store path)
            (λ observed. unlink_when-Leaves (same_baseline observed baseline)))
          removed_or_not-Leaves

  module _ (source destination : Bytes) (apart : bytes_eq destination d ≡ false) where
    link_to-Leaves : (file : File) (o : Option File) → Leaves d (link_to file destination o)
    link_to-Leaves file none w = rw apart
    link_to-Leaves file (some other) w = refl

    pub link-Leaves : Leaves d (link source destination)
    unfolding link
    link-Leaves =
        then-Leaves _ _ (open_file-Leaves source)
          (λ file. then-Leaves _ _ (λ w. refl) (link_to-Leaves file))

    pub rename-Leaves : bytes_eq source d ≡ false → Leaves d (rename source destination)
    unfolding rename
    rename-Leaves source_apart =
        then-Leaves _ _ (open_file-Leaves source) (λ file. λ w. rw (source_apart, apart))

-- The removal of a file that is the one that was captured does not raise.
pub remove_if_same-returns :
    (store : Store) (path : Bytes) (baseline : FileBaseline) (w : World)
    → (b : Bool) × (v : World) × (remove_if_same store path baseline w ≡ (ok b, v))
unfolding remove_if_same capture_regular_file open_file capture_open_descriptor unlink attempt ◌>>=◌
remove_if_same-returns store path baseline w = elim (Option-cases (w.files path)) [
  | inl e ↦ (true, w, rw e)
  | inr (file, e) ↦ elim (Bool-cases (too_large file)) [
    | inl t ↦ (false, w, rw (e, t))
    | inr t ↦ elim (Bool-cases (same_baseline (baseline_of store file) baseline)) [
      | inl same ↦ (true, with_files (put path none w.files) w, rw (e, t, same, e))
      | inr other ↦ (false, w, rw (e, t, other))
    ]
  ]
]
