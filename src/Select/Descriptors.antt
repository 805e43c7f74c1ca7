-- ===== src/Select/Descriptors.antt =====
-- Which descriptors sensors_select.c closes.
use akm_dash.Common.{◌≡◌, refl, ◌∙◌, ℤ, is_pos, true, List, [], ◌∷◌, ◌++◌, append_assoc}
use akm_dash.Select.{Select, set_fd, destroy}

-- A client that sets one descriptor after the other.
abbrev pub set_all : List ℤ → Select → Select
set_all [] s = s
set_all (fd ∷ fds) s = set_all fds (set_fd true fd s)

abbrev pub AllPositive : List ℤ → Type 0
AllPositive [] = Unit
AllPositive (fd ∷ fds) = (is_pos fd ≡ true) × AllPositive fds

set_fd_closes :
    (fd : ℤ) (s : Select)
    → is_pos s.fd ≡ true
    → ((set_fd true fd s).closed ≡ s.closed ++ s.fd ∷ [])
      × ((set_fd true fd s).fd ≡ fd)
      × ((set_fd true fd s).ctl_read ≡ s.ctl_read)
      × ((set_fd true fd s).ctl_write ≡ s.ctl_write)
unfolding set_fd
set_fd_closes fd s h = rw h (refl, refl, refl, refl)

destroy_closes :
    (s : Select)
    → is_pos s.fd ≡ true
    → is_pos s.ctl_read ≡ true
    → is_pos s.ctl_write ≡ true
    → (destroy s).closed ≡ s.closed ++ (s.fd ∷ s.ctl_read ∷ s.ctl_write ∷ [])
unfolding destroy
destroy_closes s h r w =
    rw (h, r, w)
      (append_assoc (s.closed ++ s.fd ∷ []) (s.ctl_read ∷ []) (s.ctl_write ∷ [])
        ∙ append_assoc s.closed (s.fd ∷ []) (s.ctl_read ∷ s.ctl_write ∷ []))

-- Where all descriptors are positive, `sensors_select_set_fd` called for one after the other, and
-- `sensors_select_destroy` at the end, close each of them once, in order, and both ends of the
-- pipe: none is leaked and none is closed twice.
pub set_all-destroy :
    (fds : List ℤ) (s : Select)
    → is_pos s.fd ≡ true
    → is_pos s.ctl_read ≡ true
    → is_pos s.ctl_write ≡ true
    → AllPositive fds
    → (destroy (set_all fds s)).closed
      ≡ s.closed ++ (s.fd ∷ (fds ++ (s.ctl_read ∷ s.ctl_write ∷ [])))
set_all-destroy [] s h r w a = destroy_closes s h r w
set_all-destroy (fd ∷ fds) s h r w a =
    let (c, f, r', w') = set_fd_closes fd s h in
    set_all-destroy fds (set_fd true fd s) (rw f a.0) (rw r' r) (rw w' w) a.1
    ∙ rw (c, f, r', w')
        (append_assoc s.closed (s.fd ∷ []) (fd ∷ (fds ++ (s.ctl_read ∷ s.ctl_write ∷ []))))
