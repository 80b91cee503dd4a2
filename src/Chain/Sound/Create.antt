-- ===== src/Chain/Sound/Create.antt =====
-- The soundness of a creation (frontend/src/chain/instructions/createProposal.ts).
use solana_governance.Common.Text.{Text}
use solana_governance.Github.Platform.{Platform}
