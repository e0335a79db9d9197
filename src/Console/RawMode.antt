-- ===== src/Console/RawMode.antt =====
-- What the terminal is left with (src/console.c, `startMonitorSession`; src/kernel/syscalls.c, the read
-- service).
use project_lucario.Base.{ℕ, zero, suc, ◌≡◌, refl, ap, ◌∙◌, List, [], ◌∷◌, ◌++◌}
use project_lucario.Console.Tty.{
  Termios, Tty, raw, ModeChange, session_begins, session_ends, read_begins, read_ends, apply_change,
  change_modes,
}

-- A number of reads, one after the other.
abbrev pub reads : ℕ → List ModeChange
reads zero = []
reads (suc n) = read_begins ∷ read_ends ∷ reads n

-- A session in which all reads begin and end.
abbrev pub session : ℕ → List ModeChange
session n = session_begins ∷ (reads n ++ (session_ends ∷ []))

-- A session that ESC closes after a read has begun.
abbrev pub cut_session : ℕ → List ModeChange
cut_session n = session_begins ∷ (reads n ++ (read_begins ∷ session_ends ∷ read_ends ∷ []))

-- Sessions one after the other, by their numbers of reads.
abbrev pub sessions : List ℕ → List ModeChange
sessions [] = []
sessions (n ∷ ns) = session n ++ sessions ns

change_modes-++ :
    (a b : List ModeChange) (t : Tty) → change_modes (a ++ b) t ≡ change_modes b (change_modes a t)
unfolding change_modes apply_change
change_modes-++ [] b t = refl
change_modes-++ (c ∷ a) b t = change_modes-++ a b (apply_change c t)

-- Within a session the terminal is raw, and its earlier settings are kept.
abbrev within : Termios → Tty
within s = record { settings = raw s; orig_termios = s }

change_modes-reads : (n : ℕ) (s : Termios) → change_modes (reads n) (within s) ≡ within s
unfolding change_modes apply_change
change_modes-reads zero s = refl
change_modes-reads (suc n) s = change_modes-reads n s

change_modes-opened :
    (n : ℕ) (rest : List ModeChange) (t : Tty)
    → change_modes (session_begins ∷ (reads n ++ rest)) t ≡ change_modes rest (within t.settings)
unfolding change_modes apply_change
change_modes-opened n rest t =
    change_modes-++ (reads n) rest (within t.settings)
    ∙ ap (change_modes rest) (change_modes-reads n t.settings)

change_modes-session :
    (n : ℕ) (t : Tty)
    → change_modes (session n) t ≡ record { settings = t.settings; orig_termios = t.settings }
unfolding change_modes apply_change
change_modes-session n t = change_modes-opened n (session_ends ∷ []) t

-- Where all calls of the C library succeed, any number of monitor sessions, each with any number of
-- reads that begin and end within it, leave the terminal with the settings that it had.
pub sessions-restore :
    (ns : List ℕ) (t : Tty) → (change_modes (sessions ns) t).settings ≡ t.settings
unfolding change_modes apply_change
sessions-restore [] t = refl
sessions-restore (n ∷ ns) t =
    ap (λ (x : Tty). x.settings)
      (change_modes-++ (session n) (sessions ns) t
        ∙ ap (change_modes (sessions ns)) (change_modes-session n t))
    ∙ sessions-restore ns (record { settings = t.settings; orig_termios = t.settings })

-- Where all calls of the C library succeed, but ESC closes a session while a read is going on, the
-- terminal is raw when the read ends, and no later session gives its settings back.
pub cut_session-stays_raw :
    (n : ℕ) (ns : List ℕ) (t : Tty)
    → (change_modes (cut_session n ++ sessions ns) t).settings ≡ raw t.settings
unfolding change_modes apply_change
cut_session-stays_raw n ns t =
    ap (λ (x : Tty). x.settings)
      (change_modes-++ (cut_session n) (sessions ns) t
        ∙ ap (change_modes (sessions ns))
            (change_modes-opened n (read_begins ∷ session_ends ∷ read_ends ∷ []) t))
    ∙ sessions-restore ns (within t.settings)
