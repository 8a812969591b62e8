-- ===== src/Lib.antt =====
-- This library models the parts of the gNMIc operator that decide: how targets are discovered and
-- written to the cluster, how the resources of the pipelines become a plan, and how the targets of a
-- plan are spread over the pods of a cluster.
--
-- Prelude: names of the libraries, tests into Bool, and the helpers that the parts share: lists over
-- the native numbers (Prelude/Lists), membership and counting (Prelude/Members), Go's maps as
-- association lists (Prelude/Dict), sorting (Prelude/Sort), signed integers (Prelude/Int), strings
-- as bytes (Prelude/Text) and their reading (Prelude/Parse), equality (Prelude/Tests).
--
-- Discovery: internal/controller/discovery. A loader sends snapshots, cut into chunks, and events
-- (Discovery/Send: loaders/utils/send.go); the message processor of a TargetSource collects the
-- chunks, turns a complete snapshot into events (Discovery/Mapper: mapper.go) and applies them
-- through the Kubernetes client (Discovery/Client: client.go). Discovery/Processor has the methods
-- of message_processor.go, Discovery/Run its loop; Discovery/Types the messages of core/types.go. A
-- method takes the state of the processor and returns its error and the new state. The client is a
-- record of operations over a type of worlds (Api), so that a theorem that takes any Api holds for
-- every answer of the API server and for a context that is cancelled at any call. Discovery/Reliable
-- states what a server that works does; Discovery/Memory is such a server. The theorems stand in
-- Discovery/Chunks (the cut), Discovery/Buffer and Discovery/Delivery (chunks in any order),
-- Discovery/Effects and Discovery/Converge (what a snapshot leaves in the cluster),
-- Discovery/Frames, Discovery/Invariant (what holds between two messages), Discovery/Batches (`Run`
-- from its start to the closed channel), Discovery/Labels (the labels).
--
-- Placement: internal/gnmic. Placement/Hash is FNV-1a, Placement/Blrh the bounded-load rendezvous
-- hashing of placement.go and placement_blrh.go, Placement/Distribute the distribution of a plan of
-- distribute.go. The theorems stand in Placement/Load and Placement/Bound (the load of a pod),
-- Placement/Once, Placement/Complete and Placement/Stable (which targets are placed, and where),
-- Placement/Choice (which pod is chosen) and Placement/Partition (the distribution).
--
-- Controller: internal/controller. Controller/Source is the reconciler of TargetSources of
-- targetsource_controller.go, over the registry of runtimes (Discovery/Registry: registry.go of
-- discovery). A runtime is a context, live from its start to the call of its cancel function. The
-- theorems stand in Controller/Single (at most one runtime) and Controller/Stops (which
-- reconciliations leave one).
--
-- Webhook: internal/webhook/v1alpha1. The validators of clusters, subscriptions, pipelines, target
-- profiles, targets and tunnel target policies, as functions to the answer of a request
-- (Webhook/Errors); what an admitted resource promises is in Webhook/Accepts and Webhook/Usable. A
-- spec has the fields that its validator reads.
--
-- Resources: the resource types of api/v1alpha1 that the validators and the plan read.
--
-- Building: internal/gnmic. Plan/Relations is collectRelationships of plan.go, Plan/Builder what the
-- PlanBuilder makes of one resource, Plan/Build the method Build and its phases, Plan/Ports
-- assignPorts, and Plan/Current the pod that a target has now. Plan/Target is target.go and
-- tunneltarget.go, Plan/Tls tls.go, Plan/Subscription subscription.go, Plan/Component output.go,
-- input.go and processor.go, over values of Go's type any (Plan/Any), and Plan/Dns dns.go (its
-- theorem in Plan/Domain). A phase takes the plan and the world of the API server, from which the
-- credentials come, and returns an error, a panic or the plan (Plan/Outcome); the six loops over the
-- resources of a pipeline share one (Plan/Missing). yaml.Unmarshal, os.Getenv and the fetcher of
-- credentials are parameters. The theorems stand in Plan/Returns (Build returns), Plan/Sound and
-- Contents, Listen and Distributed beside it (what the plan holds), Plan/Related (what belongs
-- together), and Plan/Assigned (the ports; the pool is the prime 1009, so that the
-- probe of Plan/Probe meets every slot), as well as Plan/Secured (TLS), Plan/Normal and Plan/Parts
-- (configurations).
--
-- State: internal/controller/targetstate_controller.go. State/Status is the status of a target and
-- its summary, State/Sync the handlers of events and polls and the clean-ups, with their retries
-- after a conflict, State/Streams the reconciler that starts and stops the streams of a cluster. The
-- API server and the pod are a record of operations over a type of worlds. The theorems stand in
-- State/Summary (every written status), State/Started and State/Restart (which streams run).
--
-- Loops are structural recursion. Only the loop over chunks runs on fuel, since its step is an
-- argument; its theorem says how much is enough. int32 counters wrap at 2 ^ 32; int is unbounded, as
-- no length comes near 2 ^ 63. The order of an association list is one order in which Go may iterate
-- over the map.
--
-- Not modelled: logging, goroutines (a channel is a list of batches), HTTP loading, the building of
-- Kubernetes objects, the other controllers and webhooks, generated code. Types of other packages
-- are type parameters.
pub mod Prelude
pub mod Discovery
pub mod Placement
pub mod Controller
pub mod Webhook
pub mod Plan
pub mod Resources
pub mod State
