-- ===== src/Iostream/Outbound.antt =====
-- The outbound pipeline, `newoutpipeline` of core/iostream.lua.
use luadch.Common.{List, [], ◌∷◌}
use luadch.Zlib.{Outcome, pushed, failed, bomb, closed_error}
use luadch.Iostream.{Bytes}

-- The stages with `write`.
pub data OutStage (D : Type 0) : Type 0 where
  out_passthrough : OutStage D
  deflate : D → OutStage D

-- A round of the loop of `write`: an empty string ends it, and so does an error.
unfoldable pub onward :
    {D : Type 0}
    → Outcome × OutStage D
    → List (OutStage D)
    → (Bytes → Outcome × List (OutStage D))
    → Outcome × List (OutStage D)
onward (pushed [], st) sts more = (pushed [], st ∷ sts)
onward (pushed (b ∷ s), st) sts more = let (r, sts') = more (b ∷ s) in (r, st ∷ sts')
onward (failed c, st) sts more = (failed c, st ∷ sts)
onward (bomb, st) sts more = (bomb, st ∷ sts)
onward (closed_error, st) sts more = (closed_error, st ∷ sts)

module _ {D : Type 0} (zpush : D → Bytes → Outcome × D) where
  unfoldable pub deflate_write : D → Bytes → Outcome × OutStage D
  deflate_write d [] = (pushed [], deflate d)
  deflate_write d (b ∷ bytes) = let (r, d') = zpush d (b ∷ bytes) in (r, deflate d')

  -- `stage:write( bytes )`, or the Lua error that it raised.
  unfoldable pub write_stage : OutStage D → Bytes → Outcome × OutStage D
  write_stage out_passthrough bytes = (pushed bytes, out_passthrough)
  write_stage (deflate d) bytes = deflate_write d bytes

  -- The loop of `write`.
  unfoldable pub write : List (OutStage D) → Bytes → Outcome × List (OutStage D)
  write [] out = (pushed out, [])
  write (st ∷ sts) out = onward (write_stage st out) sts (λ out'. write sts out')

-- `prepend` of the outbound pipeline.
unfoldable pub prepend_out : {D : Type 0} → OutStage D → List (OutStage D) → List (OutStage D)
prepend_out st stages = st ∷ stages

-- `newoutpipeline( )`
unfoldable pub newoutpipeline : {D : Type 0} → List (OutStage D)
newoutpipeline = out_passthrough ∷ []
