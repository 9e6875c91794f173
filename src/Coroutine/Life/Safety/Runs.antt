-- ===== src/Coroutine/Life/Safety/Runs.antt =====
-- A coroutine at every place of its life, through any sequence of moves.
use bbtools_coroutine.Coroutine.{Coroutine}
use bbtools_coroutine.Coroutine.Life.{Life}
