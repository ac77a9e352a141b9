-- ===== src/Lib.antt =====
-- Virtink runs virtual machines on Kubernetes. Its controllers reconcile three kinds of objects,
-- machines, migrations of machines and replica sets of machines, and its webhooks fill in defaults and
-- refuse invalid objects before they are stored.
--
-- The parts of this library and the code that they model:
-- - Prelude: shared helpers; integers with the wrap-around of int64 and int32, Go maps as association
--   lists, MAC addresses as text.
-- - Api: the objects of pkg/apis/virt/v1alpha1/types.go. A pointer is an Option and an enumeration a
--   data type. The Kubernetes types that are only passed on, and the arithmetic of resource quantities,
--   are the fields of a record Kube, an argument of everything that uses them.
-- - Client, Field, Admission: the answers of the API server, field errors as a type with a path, and
--   admission requests with the results of decoding.
-- - Webhook: pkg/controller/vm_webhook.go. Mutate is MutateVM and its handler, Spec is ValidateVMSpec,
--   Update is ValidateVMUpdate, ValidateVM and the handler, and the other modules the Validate functions
--   of the parts. The modules that end in Valid say which values the functions accept. Parsing of
--   addresses is the record Net, random bytes are a function, and reflect.DeepEqual on values of one type
--   is an instance of Eq.
-- - Migration: pkg/controller/vmm_controller.go (Controller) and vmm_webhook.go (Webhook). A machine's
--   status.migration is a slot that one migration holds; Ownership, Phases and Exclusion are about it.
--   Versions and Requests are about reconciliations that may read the machine from a stale cache, and
--   Interleaved runs any number of them in any order with the machine's own controller.
-- - Expectations: pkg/controller/expectations/expectations.go. The stores and sets of client-go are the
--   records of Expectations.Interfaces, with their laws. Counters is ControllerExpectations, Tracking is
--   UIDTrackingControllerExpectations, and time is an argument.
-- - ReplicaSet: pkg/controller/vmrs_controller.go and vmrs_webhook.go. Scale is scaleVMs and cleanVMs with
--   the calls that they make; the calls of one pass run concurrently in the code, and are a sequence in
--   their order of completion here, and sort.Slice is an argument. Status is calculateStatus, Counting its
--   loop over the machines, Controller is reconcile, Request is
--   Reconcile, and Webhook and Handlers are the webhooks. A replica set keeps its count by the
--   expectations: a pass records what it is about to do, and the next one waits
--   until that was observed.
-- - Machine: pkg/controller/vm_controller.go and pkg/volumeutil/volumeutil.go. Monad has the calls to the
--   cluster, the machine in memory and errors; an answer may depend on all calls before, so that others
--   may change the cluster at any time. Claims is volumeutil, Hotplug and VolumePods are the pods that hold
--   hotplug volumes, VolumeStatus is updateHotplugVolumeStatus, Conditions and Cleanup the conditions and
--   the deletion of pods. Build is buildVMPod: the pod shares maps with the machine, and what is written
--   to them is written to both. Reconcile is reconcile, a module for the phases Scheduling, Running and
--   Ended, and Request is Reconcile. Keeps, Leads, Makes and Ensures are the kinds of statements made
--   about a run: what it keeps of the machine, how it changes it, which calls it makes and what it gives.
--   The controllers of machines and of migrations meet in the slot status.migration.
-- - Examples: the theorems applied to concrete objects.
--
-- Bounds: a pass of a replica set makes at most BurstReplicas = 10 calls; counters of expectations are
-- int64, and the number of expected deletions is below 2^63; a status counts fewer than 2^31 machines. Only
-- the decimal digits of a number n need fuel, and n steps are enough, since each divides by ten. Each loop
-- of the code runs over a list or up to a given number.
--
-- Not modelled: events and logs, error texts, the transition times of conditions, security contexts and
-- mount options of containers, the registration of controllers with their manager, and the event handlers
-- of replica sets; pkg/daemon, cmd/virt-prerunner, pkg/cpuset and the API server; the generated clients.
-- base64, JSON and the names of generated pods are arguments.
pub mod Prelude
pub mod Api
pub mod Client
pub mod Field
pub mod Admission
pub mod Webhook
pub mod Migration
pub mod Expectations
pub mod Machine
pub mod ReplicaSet
pub mod Examples
