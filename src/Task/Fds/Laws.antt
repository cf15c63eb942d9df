-- ===== src/Task/Fds/Laws.antt =====
-- Descriptors name the files they were opened with, and nothing else changes.
use acore.Base.{
  ℕ, zero, suc, ◌-◌, ◌≡◌, ◌≢◌, refl, sym, ap, ◌∙◌, inl, inr, List, [], ◌∷◌, ◌++◌, Option, none,
  some, length, get_elem?, set, arith, length-append, Option-cases, get_elem?-set_ne,
  get_elem?-eq-none,
}
use native.Mathlib.Decide.{ℕ_discrete}
use acore.Task.Slots.{install, Installed, install_lem, first_free}
use acore.Task.Fds.{alloc_fd, file_at, open_fd, sys_dup, sys_close, sys_pipe}

module _ {ℓ} {A : Type ℓ} where
  set-append_last : (xs : List A) (a b : A) → set (xs ++ (a ∷ [])) (length xs) b ≡ xs ++ (b ∷ [])
  set-append_last [] a b = refl
  set-append_last (x ∷ xs) a b = ap (λ r. x ∷ r) (set-append_last xs a b)

module _ {ℓ} {A : Type ℓ} where
  open_fd-eq-install : (t : List (Option A)) (file : A) → open_fd t file ≡ install t file
  unfolding open_fd alloc_fd
  open_fd-eq-install t file = elim (Option-cases (first_free t)) [
    | inr (i, e) ↦ rw (e, open_fd, alloc_fd, install) refl
    | inl e ↦
        let n : length (t ++ (none ∷ [])) - 1 ≡ length t =
          omega (arith, length-append t (none ∷ [])) in
        rw (e, open_fd, alloc_fd, install) (rw (n, set-append_last t none (some file)) refl)
  ]

  pub open_fd-Installed :
      (t : List (Option A)) (file : A) → Installed t file (open_fd t file).0 (open_fd t file).1
  open_fd-Installed t file = rw (open_fd-eq-install t file) (install_lem t file)

  none_not_some : {a : A} → none ≢ some a
  none_not_some e = ground (arith, e)

  file_at-of :
      (t : List (Option A)) (fd : ℕ) (o : Option A) → get_elem? t fd ≡ some o → file_at t fd ≡ o
  file_at-of t fd o e = rw (e, file_at) refl

  file_at-out : (t : List (Option A)) (fd : ℕ) → get_elem? t fd ≡ none → file_at t fd ≡ none
  file_at-out t fd e = rw (e, file_at) refl

  Installed-free :
      (t : List (Option A)) (a : A) (i : ℕ) (t' : List (Option A))
      → Installed t a i t'
      → file_at t i ≡ none
  Installed-free t a i t' p = elim p.1 [
    | inl e ↦ file_at-of t i none e
    | inr e ↦ file_at-out t i (get_elem?-eq-none t i (omega (arith, e)))
  ]

  Installed-other :
      (t : List (Option A)) (a : A) (i : ℕ) (t' : List (Option A))
      → Installed t a i t'
      → (j : ℕ) → j ≢ i
      → file_at t' j ≡ file_at t j
  Installed-other t a i t' p j n = rw (p.3 j n, file_at) refl

  file_at-cleared : (t : List (Option A)) (i : ℕ) → file_at (set t i none) i ≡ none
  file_at-cleared [] i = refl
  file_at-cleared (x ∷ t) zero = refl
  file_at-cleared (x ∷ t) (suc i) = file_at-cleared t i

  close-some :
      (t : List (Option A)) (fd : ℕ) (a : A)
      → file_at t fd ≡ some a
      → sys_close t fd ≡ (0, set t fd none)
  unfolding sys_close
  close-some t fd a e = rw (e, sys_close) refl

  dup-some :
      (t : List (Option A)) (fd : ℕ) (a : A) → file_at t fd ≡ some a → sys_dup t fd ≡ open_fd t a
  unfolding sys_dup
  dup-some t fd a e = rw (e, sys_dup) refl

  closed :
      (t : List (Option A)) (a : A) (i : ℕ) (t' : List (Option A))
      → Installed t a i t'
      → (j : ℕ) → file_at (set t' i none) j ≡ file_at t j
  closed t a i t' p j = elim (ℕ_discrete j i) [
    | yes e ↦ rw e (file_at-cleared t' i ∙ sym (Installed-free t a i t' p))
    | no n ↦
        rw (get_elem?-set_ne t' none (λ e. n (sym e)), file_at) (Installed-other t a i t' p j n)
  ]

  -- A duplicate is another descriptor of the same file, the smallest that was free, and closing it
  -- gives every descriptor back as it was.
  pub dup_close :
      (t : List (Option A)) (fd : ℕ) (file : A)
      → file_at t fd ≡ some file
      → ((sys_dup t fd).0 ≢ fd)
        × Installed t file (sys_dup t fd).0 (sys_dup t fd).1
        × ((sys_close (sys_dup t fd).1 (sys_dup t fd).0).0 ≡ 0)
        × ((i : ℕ) → file_at (sys_close (sys_dup t fd).1 (sys_dup t fd).0).1 i ≡ file_at t i)
  unfolding sys_dup sys_close
  dup_close t fd file e =
      let p = open_fd-Installed t file in
      let c =
        close-some (open_fd t file).1 (open_fd t file).0 file
          (file_at-of (open_fd t file).1 (open_fd t file).0 (some file) p.0) in
      rw (dup-some t fd file e) (
        (λ s. none_not_some (sym (Installed-free _ file _ _ p) ∙ ap (file_at t) s ∙ e)),
        p,
        ap (λ q. q.0) c,
        λ i. ap (λ q. file_at q.1 i) c ∙ closed t file _ _ p i,
      )

  -- Two descriptors r and w in the table t' name the ends of a new pipe, and nothing else changed.
  abbrev pub PipeOpened : List (Option A) → A → A → ℕ × ℕ × List (Option A) → Type ℓ
  PipeOpened t pipe_read pipe_write (r, w, t') =
      (r ≢ w)
      × (file_at t r ≡ none)
      × (file_at t w ≡ none)
      × (file_at t' r ≡ some pipe_read)
      × (file_at t' w ≡ some pipe_write)
      × ((i : ℕ) → i ≢ r → i ≢ w → file_at t' i ≡ file_at t i)

  -- The two ends of a pipe get two different descriptors that were free, and every other
  -- descriptor keeps its file.
  pub pipe_fds :
      (t : List (Option A)) (pipe_read pipe_write : A)
      → PipeOpened t pipe_read pipe_write (sys_pipe t pipe_read pipe_write)
  unfolding sys_pipe
  pipe_fds t pipe_read pipe_write =
      let t₁ = (open_fd t pipe_read).1 in
      let r = (open_fd t pipe_read).0 in
      let t₂ = (open_fd t₁ pipe_write).1 in
      let w = (open_fd t₁ pipe_write).0 in
      let p = open_fd-Installed t pipe_read in
      let q = open_fd-Installed t₁ pipe_write in
      let got_r = file_at-of t₁ r (some pipe_read) p.0 in
      let free_w = Installed-free t₁ pipe_write w t₂ q in
      let differ : r ≢ w = λ e. none_not_some (sym free_w ∙ sym (ap (file_at t₁) e) ∙ got_r) in
      let other = Installed-other t₁ pipe_write w t₂ q in
      let other₁ = Installed-other t pipe_read r t₁ p in
      (
        differ,
        Installed-free t pipe_read r t₁ p,
        sym (other₁ w (λ e. differ (sym e))) ∙ free_w,
        other r differ ∙ got_r,
        file_at-of t₂ w (some pipe_write) q.0,
        λ i n m. other i m ∙ other₁ i n,
      )
