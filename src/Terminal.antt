-- ===== src/Terminal.antt =====
-- model/terminal.rs: the size of a terminal, in characters or in pixels.
use ssh_rs.Base.{ℕ}

pub data TerminalSizeType : Type 0 where
  character pixel : TerminalSizeType

pub record TerminalSize : Type 0 where
  pub width : ℕ
  pub height : ℕ
  pub type_ : TerminalSizeType

abbrev pub from : ℕ → ℕ → TerminalSize
from width height = record { width = width; height = height; type_ = character }

abbrev pub from_type : ℕ → ℕ → TerminalSizeType → TerminalSize
from_type width height type_ = record { width = width; height = height; type_ = type_ }

-- Columns, rows, and the two in pixels.
abbrev pub sizes : TerminalSizeType → ℕ → ℕ → ℕ × ℕ × ℕ × ℕ
sizes character w h = (w, h, 0, 0)
sizes pixel w h = (0, 0, w, h)

unfoldable pub fetch : TerminalSize → ℕ × ℕ × ℕ × ℕ
fetch t = sizes t.type_ t.width t.height
