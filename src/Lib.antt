-- ===== src/Lib.antt =====
-- Garden Linux builds Linux images for several cloud platforms. The Python code under ci/ plans
-- the builds, keeps the manifests of what was built in an S3 bucket, publishes images and cleans
-- the bucket up. This library models its core.
--
-- Prelude has the shared types: numbers and texts with Boolean tests, lists as Python's lists and
-- sets, results of code that may raise (Prelude/Result), sorting by a key (Prelude/Sort), upper
-- case and code point order (Prelude/Text).
-- Model follows ci/glci/model.py. Targets is BuildTarget with set_from_str and
-- check_requirements; Features is FeatureDescriptor with included_features and feature_by_name;
-- Modifiers is normalised_modifiers and canonicalised_features; Flavours is GardenlinuxFlavour,
-- its combinations and sets; Manifests is the identifiers, manifests and manifest sets with their
-- keys. Versions is the epoch of a date, its snapshot date, the VERSION file (given as its lines)
-- and the lookups by name. The set of all features is an argument, in its order of iteration.
-- Store is what the code uses of an S3 client and of the YAML conversion: a record of operations
-- with a state, and its documented behaviour as IsLawful and IsProgressing. Tests/Memory is a
-- lawful store in memory, and Tests/Paged one whose listing has pages and moves on.
-- Releases follows ci/glci/util.py: release_manifest, release_manifest_set, their uploads,
-- find_release, find_releases, find_release_set, and, in Releases/Pages, the two enumerations.
-- Clean follows ci/clean.py over the manifests that were enumerated: the two purges of outdated
-- manifests and the purge of objects that no manifest refers to.
-- Promote follows ci/promote.py (Promote/Image: publish_image, with what a provider does as a
-- parameter) and ci/steps/promote_step.py (Promote/Single: promote_single_step; Promote/Sets:
-- promote_step).
-- The steps use the model to find the releases of a flavour set in the store, publish each, and
-- write a manifest set; the clean-up reads the manifests and purges what is old or loose.
-- Promote/Command is promote and main of ci/promote.py, Promote/Providers its publishing
-- functions for Azure, GCP and OCI.
-- Tekton follows ci/tkn/util.py: the latest condition of a run, the wait for a status, and the
-- summary of the task runs of a pipeline. What the tkn command answers, pass by pass, is a
-- parameter.
-- ReleaseBranch is ensure_target_branch_exists and main of ci/release.py, with
-- ci/steps/release_step.py in ReleaseBranch/Step, over a record of what git and GitHub do with
-- its documented behaviour as IsGit.
-- Azure follows ci/glci/az.py: the copy of an image into a storage account (Azure), the plans of
-- an offer (Azure/Offers), the operations and the client of the marketplace (Azure/Operations,
-- Azure/Market), check_offer_transport_state (Azure/Transport, with the diagram of its states in
-- Azure/Transport/Moves), upload_and_publish_image (Azure/Publish) and
-- publish_azure_shared_image_gallery (Azure/Gallery).
-- Aws, Gcp, Alicloud, Openstack and Oci follow aws.py, gcp.py, alicloud.py, openstack_image.py
-- and oci.py beside it. Aws/Unregister has the threads of unregister_images_by_name as steps in
-- any order. Oci/Sets has the release sets of oci.py. The architecture of a release is a member
-- of an enumeration when it was read from the store, and a text when upload_results_step has just
-- built it, which Holding of Oci/Identifier tells apart. Each SDK is a record of calls that
-- change a state and may raise (Prelude/Action); code that polls is a Run (Prelude/Run), which
-- says when it still waits.
-- Logs follows ci/logs.py: the infos of the task runs of a pipeline run, the archive and the
-- excerpts of their logs, and get_task_result. Attach follows the part of ci/steps/attach_logs.py
-- that attaches the log of a run to the manifests of what it has built, over Store and Releases.
-- Build follows ci/steps/upload_results_step.py and ci/steps/pre_check_tests.py: a build uploads
-- its files and its manifest, which the check for tests reads.
--
-- A function that may raise returns a Result with the class of its exception. Sets are lists
-- without repetition. A time stamp is a number of microseconds. The depth of nested calls of
-- included_features is an argument, past which a RecursionError is raised; for features without
-- cycles any depth above a rank of the feature is enough. A loop over pages of a listing takes a
-- number of requests; where each page leads to a page of lower rank, any number above the rank of
-- the start is enough. The wait for a run takes a number of passes; where a pass takes a polling
-- interval at least, more passes than intervals fit into the timeout are enough. The loops of
-- ci/glci that poll take a number of polls likewise, and end if what they wait for comes nearer
-- with each poll, or if a clock goes on; Aws/Served and Alicloud/Served say what a service that
-- answers in time does, and how many polls are then enough. The copy of pages takes one round for
-- each byte at most.
--
-- Threads of an executor are run in the order of the list, but for Aws/Unregister. Log messages
-- are left out. Texts are upper-cased as ASCII. Promote takes what a provider does as a
-- parameter; Promote/Providers fills it in for Azure, GCP and OCI, while Alibaba Cloud, AWS and
-- OpenStack, whose code may wait for ever, stay parameters. Not modelled: the rendering of Tekton
-- pipelines, _attach_and_upload_logs of ci/steps/attach_logs.py, the notification and GitHub
-- release steps, the command line tools, and the shell scripts that build images: they mostly
-- call services and libraries.
pub mod Prelude
pub mod Model
pub mod Store
pub mod Releases
pub mod Clean
pub mod Promote
pub mod Tekton
pub mod ReleaseBranch
pub mod Tests
pub mod Azure
pub mod Aws
pub mod Openstack
pub mod Gcp
pub mod Alicloud
pub mod Oci
pub mod Logs
pub mod Attach
pub mod Build
