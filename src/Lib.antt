-- ===== src/Lib.antt =====
-- The verification library of kro, the Kubernetes resource orchestrator.
--
-- kro reads a ResourceGroup, builds a graph of its resources, and reconciles the instances of the
-- custom resource that the group defines.
-- - Common: strings as lists of bytes, maps as association lists, outcomes of runs. Quoting has `%q` of
--   a string, with the runes of UTF-8 and the table of printable runes of Unicode 15.0 (Printable).
-- - Dag (internal/graph/dag/dag.go): the graph of a group's resources. `add_vertex`, `add_edge`,
--   `has_cycle`, `topological_sort` and `get_vertices` follow AddVertex, AddEdge, HasCycle,
--   TopologicalSort and GetVertices. A method returns the graph that it leaves behind. The recursive
--   closures take fuel, one more than the number of vertices, and the theorems show that it is
--   enough: each call marks a vertex that was not marked.
-- - Fieldpath (internal/graph/fieldpath): paths of fields. `parse` and `build` follow Parse and Build.
--   The loop of the parser takes one round of fuel for each byte of the path: a round that goes on
--   takes a byte away, but for one kind of path at which the code loops for ever.
-- - Values: JSON objects, the `map[string]interface{}` of unstructured resources, as plain values.
-- - Resolver (internal/runtime/resolver/resolver.go): it reads and writes values at paths and puts the
--   values of expressions in place. The resource that the code mutates is passed on as a value. A
--   write that fails has met a value of the wrong kind before it created anything, so that the
--   resource is then as it was.
-- - Runtime (internal/runtime/runtime.go, state.go): the state of one instance. The pointers to
--   `expressionEvaluationState` that the cache and the variables share are addresses in a store.
--   Collect follows the loops of NewResourceGroupRuntime, Evaluate the evaluation of variables and
--   Synchronize, Conditions IsResourceReady and WantToCreateResource. The resources are the values
--   behind `Unstructured()`, and no two of them share an object.
-- - Metadata (internal/metadata/finalizers.go, labels.go, groupversion.go): finalizers, labels and the
--   names of kinds.
--   How they are read from an object and written to it is apimachinery's: a record of accessors.
-- - Instance (internal/controller/instance): one reconciliation of an instance. The cluster is a record
--   of functions: an answer may depend on all calls made before, which the reconciler lists.
--   Finalizing follows setManaged and setUnmanaged, Reconciling the creation of resources in
--   topological order, Deleting their deletion in reverse order, Status controller_status.go, Controller
--   the request that comes before (controller.go), and
--   Lifecycle reconcile and handleReconciliation. A panic of the code is an outcome of its own: what
--   a method does to the cluster before it panics is not told.
-- - Validation (internal/graph/validation.go): the names of a group and the shape of its objects. The
--   regular expressions are functions over bytes. ParseGroupVersion is a parameter.
-- - Expressions (internal/graph/parser/cel.go): how expressions are found in a text. The indices of the
--   code are the rest of the text. The outer loop takes a round of fuel for each byte of the text: each
--   round takes a byte at least.
--
-- - Parser (internal/graph/parser/parser.go, schemaless.go, conditions.go): the walks that collect the
--   fields with expressions. OpenApi has what is read of a spec.Schema; the type that validateSchema
--   sets in a schema is passed on. Strings lists the strings of a resource, Written and Paths are
--   about the paths, Sources about the fields, Agreement compares the two walks.
-- - DynamicController (pkg/dynamiccontroller/dynamic_controller.go, pkg/requeue): the controller's two
--   maps and its queue. The queue of client-go is a record of operations; what a handler, an informer
--   or the queue answers may differ from call to call. Served has the specification.
-- - ResourceGroups (internal/controller/resourcegroup, api/v1alpha1/conditions.go): one
--   reconciliation of a ResourceGroup. The calls of the API server are listed, and its answers may
--   depend on the calls made before. It uses the model of the dynamic controller.
-- - Builder (internal/graph/builder.go, resource.go): from the built resources to the dependency graph
--   and its order. The inspector of CEL expressions is a parameter. Reasons says what the
--   expressions read and when a group may be refused, Reads what the code makes of one expression;
--   Growth, Wiring and Extension follow the loops from the inside out, Scoped says which expressions a
--   group has, and Order is about the whole.
--
-- Maps are association lists. Their order is the order of a `range` loop, which Go leaves open: a
-- theorem about every list covers each order. Errors are values without the text of their message
-- where no caller reads it. CEL (pkg/cel and cel-go) is a record of functions. Not modelled: how
-- the builder makes the resources and the instance of a group from their schemas, the simple schema,
-- the conversions of schemas, the goroutines of the dynamic controller, and the clients of the
-- cluster.
pub mod Common
pub mod Dag
pub mod Fieldpath
pub mod Values
pub mod Resolver
pub mod Runtime
pub mod Metadata
pub mod Instance
pub mod Validation
pub mod Expressions
pub mod Parser
pub mod DynamicController
pub mod ResourceGroups
pub mod Builder
