-- ===== src/Campaign/Machine/Returns.antt =====
-- `runCampaign` of core/src/campaign/campaign.ts returns on a machine on which no call fails.
use crash_fuzz.Prelude.{nat_eq}
use crash_fuzz.Prelude.Text.{Text}
use crash_fuzz.Trace.{Trace}
use crash_fuzz.Image.{Machine}
