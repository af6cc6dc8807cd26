-- ===== src/Tools.antt =====
-- core/tools: the programs that are run by hand.
pub mod FtruncateVsOverwrite
pub mod StateExplosion
pub mod CampaignRun
pub mod TddReport
