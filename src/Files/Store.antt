-- ===== src/Files/Store.antt =====
-- What the node stores is what it reads back.
use sys_grid.Base.{
  ℕ, ◌^◌, ◌<◌, ◌≡◌, ◌≢◌, refl, sym, ap, ◌∙◌, arith, true, Option, none, some, ltb, if◌then◌else◌,
  length, Bool-cases, Option-cases, inl, inr,
}
use sys_grid.Net.{Bytes}
use sys_grid.Config.{Text}
use sys_grid.Files.{
  StateObject, state_path, FileSystem, write_whole_file, cb_state_get, cb_state_put,
}
use sys_grid.Files.Paths.{same_object, state_path_iff}

-- A call on one path leaves the files at all others as they are. A file that is deleted cannot be read;
-- and one that was created with the length of a content and then written holds it.
pub record IsLawful (fs : FileSystem) : Type 0 where
  pub delete_self : (s : fs.State) (p : Text) → fs.read (fs.delete s p) p ≡ none
  pub delete_other : (s : fs.State) (p q : Text) → q ≢ p → fs.read (fs.delete s p) q ≡ fs.read s q
  pub create_other :
      (s : fs.State) (p : Text) (n : ℕ) (q : Text)
      → q ≢ p
      → fs.read (fs.create s p n).0 q ≡ fs.read s q
  pub write_other :
      (s : fs.State) (p : Text) (b : Bytes) (q : Text)
      → q ≢ p
      → fs.read (fs.write s p b).0 q ≡ fs.read s q
  pub write_self :
      (s : fs.State) (p : Text) (b : Bytes)
      → (fs.create s p (length b)).1 ≡ true
      → (fs.write (fs.create s p (length b)).0 p b).1 ≡ true
      → fs.read (fs.write (fs.create s p (length b)).0 p b).0 p ≡ some b

module _ (fs : FileSystem) (lawful : IsLawful fs) where
  write_whole_file_self :
      (s : fs.State) (p : Text) (b : Bytes)
      → (write_whole_file fs s p b).1 ≡ true
      → fs.read (write_whole_file fs s p b).0 p ≡ some b
  unfolding write_whole_file
  write_whole_file_self s p b written =
      elim (Bool-cases (fs.create (fs.delete s p) p (length b)).1) [
        | inr failed ↦ absurd (ground arith)
        | inl made ↦ rw made (lawful.write_self (fs.delete s p) p b made (rw made at written))
      ]

  write_whole_file-other :
      (s : fs.State) (p : Text) (b : Bytes) (q : Text)
      → q ≢ p
      → fs.read (write_whole_file fs s p b).0 q ≡ fs.read s q
  unfolding write_whole_file
  write_whole_file-other s p b q other =
      let deleted = lawful.delete_other s p q other in
      let created = lawful.create_other (fs.delete s p) p (length b) q other in
      let stored = lawful.write_other (fs.create (fs.delete s p) p (length b)).0 p b q other in
      elim (Bool-cases (fs.create (fs.delete s p) p (length b)).1) [
        | inr failed ↦ rw failed (created ∙ deleted)
        | inl made ↦ rw made (stored ∙ created ∙ deleted)
      ]

  -- What `cbStateGet` reads at a path.
  abbrev read_at : fs.State → Text → ℕ → Option Bytes
  read_at s p maxlen = elim (fs.read s p) [
    | none ↦ none
    | some content ↦ if ltb maxlen (length content) then none else some content
  ]

  cb_state_get-at :
      (s : fs.State) (t : StateObject) (id maxlen : ℕ) (p : Text)
      → state_path t id ≡ some p
      → cb_state_get fs s t id maxlen ≡ read_at s p maxlen
  unfolding cb_state_get
  cb_state_get-at s t id maxlen p e = rw (e, cb_state_get) refl

  cb_state_get-none :
      (s : fs.State) (t : StateObject) (id maxlen : ℕ)
      → state_path t id ≡ none
      → cb_state_get fs s t id maxlen ≡ none
  unfolding cb_state_get
  cb_state_get-none s t id maxlen e = rw (e, cb_state_get) refl

  -- Over any file system that keeps its files apart, and for ids of 64 bits: a state object that the
  -- node has stored, where the file could be created and written, is read back with its content if that
  -- fits the buffer, and is not found if it does not; and every other object, of another kind or with
  -- another id, is read as before.
  pub cb_state_get-put :
      (s : fs.State) (t : StateObject) (id : ℕ) (p : Text) (content : Bytes) (t' : StateObject)
      (id' maxlen : ℕ)
      → id < 2 ^ 64
      → id' < 2 ^ 64
      → state_path t id ≡ some p
      → (write_whole_file fs s p content).1 ≡ true
      → cb_state_get fs (cb_state_put fs s t id (some content)) t' id' maxlen ≡ (
          if same_object t id t' id'
          then if ltb maxlen (length content) then none else some content
          else cb_state_get fs s t' id' maxlen)
  unfolding cb_state_put
  cb_state_get-put s t id p content t' id' maxlen h h' at written =
      let s' = (write_whole_file fs s p content).0 in
      let put : cb_state_put fs s t id (some content) ≡ s' = rw (at, cb_state_put) refl in
      let stored = write_whole_file_self s p content written in
      let iff = state_path_iff t id t' id' h h' in
      ap (λ (u : fs.State). cb_state_get fs u t' id' maxlen) put
      ∙ elim (Bool-cases (same_object t id t' id')) [
        | inl same ↦
            rw same (
              cb_state_get-at s' t' id' maxlen p (sym (iff.1 same) ∙ at)
              ∙ rw (stored, read_at) refl)
        | inr differ ↦ rw differ (elim (Option-cases (state_path t' id')) [
          | inl none_ ↦
              cb_state_get-none s' t' id' maxlen none_
              ∙ sym (cb_state_get-none s t' id' maxlen none_)
          | inr (q, at') ↦
              let other : q ≢ p = λ e. cc (differ, iff.0 (at ∙ ap some (sym e) ∙ sym at')) in
              let kept = write_whole_file-other s p content q other in
              cb_state_get-at s' t' id' maxlen q at'
              ∙ rw (kept, read_at) refl
              ∙ sym (cb_state_get-at s t' id' maxlen q at')
        ])
      ]
