-- ===== src/Lib.antt =====
-- open62541-nodeset-exporter writes nodes of an OPC UA server into a NodeSet file. A caller hands over
-- lists of node ids, each beginning with its start node. The exporter loop asks the server for the class,
-- the attributes and the references of every node, filters and completes the references, finds a parent
-- for every node, and passes each node to an encoder, between the namespaces and the aliases. This library
-- models that loop (src/nodesetexporter/NodesetExporterLoop.cpp and its header), what it stands on, the
-- encoder for XML, the wrapper of a client, and the program around them.
--
-- Which file models what:
--   Status       include/nodesetexporter/common/Statuses.h, StatusResults; how a call ends
--   Effect       calls that change a state and may fail or throw
--   Ua           the values of open62541 that the code reads, and
--                include/nodesetexporter/open62541/UATypesContainer.h over them
--   Containers   UATypesContainer.h again: the lifetime of the objects in the containers
--   Ua/Ids       the constants and the static tables of NodesetExporterLoop
--   Ua/Sets      std::set of node ids, which compares by the library's order
--   Texts        std::string as a key
--   Strings      src/nodesetexporter/common/Strings.cpp, UaGuidIdentifierToStdString
--   Model        include/nodesetexporter/open62541/NodeIntermediateModel.h
--   Interfaces   include/nodesetexporter/interfaces, IOpen62541 and IEncoder
--   Loop/Options, Exporter   the options, the members and the constructor of NodesetExporterLoop
--   Loop/Distinct            Distinct and CheckStartNodesOnNS0
--   Loop/Wanted, Requests    GetNodeClasses, GetNodeAttributes, GetNodeReferences, GetNamespaces
--   Loop/KepServer           KepServerRefFix
--   Loop/Filters             DeleteFailedReferences, DeleteAllHierarhicalReferences and
--                            DeleteNotHasSubtypeReference
--   Loop/Parent              GetParentNodeId and GetBaseObjectType
--   Loop/StartNode           AddStartNodeIfNotFound, CreateAttributesForStartNode and
--                            AddCustomRefferenceToNodeID
--   Loop/NodeData, NodesData GetNodesData: the body of its loop, then the loop
--   Loop/Aliases             GetAliases
--   Loop/ExportNodes         ExportNodes
--   Loop/Batches             func_in_nodes_loop, a local function of StartExport
--   Loop/StartExport         StartExport with both of its branches; Content says which models its lists
--                            give by the answers of the server
--   TypeAliases  src/nodesetexporter/open62541/TypeAliases.cpp, UAVariantToStdVariant
--   Client       src/nodesetexporter/open62541/ClientWrappers.cpp, an instance of IOpen62541
--   BrowseOperations  src/nodesetexporter/open62541/BrowseOperations.cpp, the collection of node ids
--   ExportNodeset  src/nodesetexporter/NodesetExporter.cpp, the entry function; ExportNodeset/File with the
--                encoder for XML behind it
--   Application  apps/src/apps/nodesetexporter/Application.cpp, the program around the library
--   Xml          the functions of tinyxml2 that the encoder calls, as parameters
--   AttributeText  include/nodesetexporter/encoders/GetAttributeToXMLText.h, the texts of the attributes
--   XmlNode, XmlNode/Elements  include/nodesetexporter/encoders/XMLEncoder.h: how an element is filled in
--                for a node, its parts and then the six classes
--   XmlEncoder   the rest of XMLEncoder.h: the state and the methods, an instance of IEncoder
--   Samples, Tests           a library, a server, a document and encoders to run the code on, and runs
-- The other children of a module prove what it does.
--
-- How the code is translated. A function that fills in an argument passed by reference returns it. A
-- result with the status Good is `ok` with the value that was filled in, one with the status Fail is
-- `fails`, and an exception is `throws`; what C++ leaves undefined is the exception `undefined`. The
-- server and the encoder are records of operations over a state of their own, so the theorems hold for
-- every server and every encoder; their states stay changed after a failure. The functions of open62541
-- on values, and the alias tables that the build generates, are the fields of `Ua`. `UaLaws` says of them
-- what their documentation says: equality and order of node ids tell exactly the equal ones, the order is
-- the same seen from both sides, and the numeric member of a numeric identifier is its number. `Samples`
-- has an instance of all of it. A std::set of node ids is a list without repetition, and the static table
-- of ignored classes is a field of the exporter that the constructor takes over from its predecessor.
-- Sizes are natural numbers: the code compares and subtracts indexes only where the result is not
-- negative.
--
-- The functions of tinyxml2 are the fields of `Xml`, and `XmlLaws` says of them what its documentation says:
-- where a child goes, what an attribute is set to, and how numbers are printed. `Samples/Document` has an
-- instance. The encoder holds a pointer to its UANodeSet and writes through it; here the element is kept
-- beside the document without it, and `document` puts them together. A child is filled in before it is
-- placed, which nothing in between can see. A double is its bit pattern, and its text is a parameter.
--
-- Loops are recursion on the list that the code runs over, except for func_in_nodes_loop, whose index
-- grows by the size of a batch. It has fuel, one round more than the list has nodes; each round takes at
-- least one node, as the number of nodes per request is not 0 in that branch. BrowseNext of the client
-- asks until the server says that there is no further page; its fuel is enough when a measure of the
-- connection falls with each page that another one follows. The collection of node ids by browsing keeps no
-- record of the nodes it has seen and ends where the hierarchy has a finite height, which is the fuel.
--
-- The program's export runs in a thread of its own, while the main thread waits for it or for a stop signal.
-- What the signal does to the client is part of the client's state, which may change with every call, so
-- the theorems hold for a stop at any call.
--
-- Elsewhere a container is the value that it holds. `Containers` has the pointers: a memory of live objects,
-- variables that are containers, and one operation for each way to make, assign and destroy them, except
-- that no weak container, which does not own its object, is made. Freeing or reading what is not live is the exception `undefined`, and UA_new always has memory.
--
-- Not modelled: logging, performance timers, the text of the statistics and VariantsOfAttrToString, which are
-- output only; the printing of help; and the wrapper for a server in the same process, whose methods only throw.
-- StartExport writes the result of Distinct back into its list of node ids; here it is passed on as a
-- value, since the loop reads each list once.
pub mod Prelude
pub mod Status
pub mod Ua
pub mod Texts
pub mod Strings
pub mod Model
pub mod Effect
pub mod Interfaces
pub mod TypeAliases
pub mod Xml
pub mod AttributeText
pub mod XmlNode
pub mod XmlEncoder
pub mod BrowseOperations
pub mod Client
pub mod Loop
pub mod ExportNodeset
pub mod Samples
pub mod Containers
pub mod Application
pub mod Tests
