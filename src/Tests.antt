-- ===== src/Tests.antt =====
-- Runs of the jobs on a bucket that is kept in memory.
pub mod Memory
pub mod Paged
pub mod ReleaseRuns
pub mod CleanRuns
pub mod PromoteRuns
pub mod TektonRuns
pub mod CommandRuns
pub mod VersionRuns
pub mod BranchRuns
pub mod StorageRuns
pub mod FeatureRuns
pub mod MarketRuns
pub mod StagedRuns
pub mod AwsRuns
pub mod CloudRuns
pub mod OciRuns
pub mod LogRuns
pub mod BuildRuns
pub mod ProviderRuns
pub mod OrderRuns
