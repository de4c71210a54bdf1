-- ===== src/Config/Layers/Precedence.antt =====
-- Later layers win, field by field.
use pwnbridge.Prelude.{Option, none, some, ◌≡◌, refl}
use pwnbridge.Config.Types.{Container, Runtime, Terminal, ZellijTerminal, TmuxTerminal}
use pwnbridge.Config.Layers.{
  ContainerLayer, RuntimeLayer, TerminalLayer, ZellijTerminalLayer, TmuxTerminalLayer, override,
  within, apply_container, apply_runtime, apply_terminal, apply_zellij, apply_tmux,
}

-- What two layers give together: the second wins where both are set.
abbrev pub over {ℓ} : {A : Type ℓ} → Option A → Option A → Option A
over a none = a
over a (some b) = some b

abbrev pub over_within {ℓ} : {L : Type ℓ} → (L → L → L) → Option L → Option L → Option L
over_within f a none = a
over_within f none (some b) = some b
over_within f (some a) (some b) = some (f a b)

override-over {ℓ} :
    {A : Type ℓ} (a b : Option A) (d : A) → override b (override a d) ≡ override (over a b) d
override-over a none d = refl
override-over a (some b) d = refl

within-over {ℓ κ} :
    {A : Type ℓ} {L : Type κ} (f : A → L → A) (g : L → L → L)
    → ((d : A) (a b : L) → f (f d a) b ≡ f d (g a b))
    → (d : A) (a b : Option L) → within f (within f d a) b ≡ within f d (over_within g a b)
within-over f g h d a none = refl
within-over f g h d none (some b) = refl
within-over f g h d (some a) (some b) = h d a b

unfoldable pub over_container : ContainerLayer → ContainerLayer → ContainerLayer
over_container a b = record {
  engine = over a.engine b.engine;
  image = over a.image b.image;
  workdir = over a.workdir b.workdir;
  network = over a.network b.network;
}

unfoldable pub over_runtime : RuntimeLayer → RuntimeLayer → RuntimeLayer
over_runtime a b = record {
  kind = over a.kind b.kind;
  container = over_within over_container a.container b.container;
}

over_zellij : ZellijTerminalLayer → ZellijTerminalLayer → ZellijTerminalLayer
over_zellij a b = record {
  near_current_pane = over a.near_current_pane b.near_current_pane;
  direction = over a.direction b.direction;
  floating = over a.floating b.floating;
}

over_tmux : TmuxTerminalLayer → TmuxTerminalLayer → TmuxTerminalLayer
over_tmux a b = record { direction = over a.direction b.direction; size = over a.size b.size }

unfoldable pub over_terminal : TerminalLayer → TerminalLayer → TerminalLayer
unfolding over_zellij over_tmux
over_terminal a b = record {
  provider = over a.provider b.provider;
  scope = over a.scope b.scope;
  placement = over a.placement b.placement;
  size = over a.size b.size;
  focus = over a.focus b.focus;
  close_on_success = over a.close_on_success b.close_on_success;
  hold_on_failure = over a.hold_on_failure b.hold_on_failure;
  zellij = over_within over_zellij a.zellij b.zellij;
  tmux = over_within over_tmux a.tmux b.tmux;
}

apply_container-over :
    (d : Container) (a b : ContainerLayer)
    → apply_container (apply_container d a) b ≡ apply_container d (over_container a b)
unfolding apply_container over_container
apply_container-over d a b = simp override-over

apply_zellij-over :
    (d : ZellijTerminal) (a b : ZellijTerminalLayer)
    → apply_zellij (apply_zellij d a) b ≡ apply_zellij d (over_zellij a b)
unfolding apply_zellij over_zellij
apply_zellij-over d a b = simp override-over

apply_tmux-over :
    (d : TmuxTerminal) (a b : TmuxTerminalLayer)
    → apply_tmux (apply_tmux d a) b ≡ apply_tmux d (over_tmux a b)
unfolding apply_tmux over_tmux
apply_tmux-over d a b = simp override-over

-- The global and the project layer of the runtime act as one layer in which the project's settings
-- win and every setting that it leaves out is the global one.
pub apply_runtime-over :
    (d : Runtime) (a b : RuntimeLayer)
    → apply_runtime (apply_runtime d a) b ≡ apply_runtime d (over_runtime a b)
unfolding apply_runtime over_runtime
apply_runtime-over d a b = simp (
  override-over,
  within-over apply_container over_container apply_container-over d.container a.container
      b.container,
)

-- Two layers of terminal settings act as one, in which the second wins setting by setting, the nested
-- ones included.
pub apply_terminal-over :
    (d : Terminal) (a b : TerminalLayer)
    → apply_terminal (apply_terminal d a) b ≡ apply_terminal d (over_terminal a b)
unfolding apply_terminal over_terminal
apply_terminal-over d a b = simp (
  override-over,
  within-over apply_zellij over_zellij apply_zellij-over d.zellij a.zellij b.zellij,
  within-over apply_tmux over_tmux apply_tmux-over d.tmux a.tmux b.tmux,
)
