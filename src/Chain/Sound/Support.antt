-- ===== src/Chain/Sound/Support.antt =====
-- The soundness of a support (frontend/src/chain/instructions/supportProposal.ts).
use Prim.Native.String.{String}
