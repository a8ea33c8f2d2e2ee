-- ===== src/Agent/Guard/Laws.antt =====
-- What the memory guard promises the loop.
use nl2sqlcopy.Floats.{Floats}
use nl2sqlcopy.Text.{Text, text_eq}
use nl2sqlcopy.Agent.Actions.{action_eq}
use nl2sqlcopy.Agent.State.{State}
